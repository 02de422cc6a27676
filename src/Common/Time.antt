-- ===== src/Common/Time.antt =====
-- Instants. A `datetime` is a count of microseconds since one fixed origin, with or without a time
-- zone; all arithmetic is between instants with one.
use aishopping_agent.Common.{ℕ, ◌*◌, Option, some, none}

pub data Datetime : Type 0 where
  aware naive : ℕ → Datetime

-- The instant of a value that has a time zone; the sources raise `ValueError` for one that has not.
abbrev pub require_aware : Datetime → Option ℕ
require_aware (aware t) = some t
require_aware (naive t) = none

abbrev pub seconds : ℕ → ℕ
seconds n = n * 1000000

-- Kept shut, so that a number of minutes stays as it is written.
unfoldable pub minutes : ℕ → ℕ
minutes n = n * 60000000
