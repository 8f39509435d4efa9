-- ===== src/Ticker.antt =====
-- The loops of the repository that select between a ticker and the end of a context.

-- What such a loop receives.
pub data Signal : Type 0 where
  tick done : Signal
