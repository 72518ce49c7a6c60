-- ===== src/Ajanlar/Dagitici/Laws.antt =====
-- What cancels an agent's run under core/turkish_code/ajanlar/dagitici.py when others are in flight.
