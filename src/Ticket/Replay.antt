-- ===== src/Ticket/Replay.antt =====
-- The cache of the tickets that were scanned (src/booking/qr-replay.cache.ts), over a Redis server.
use saprk_parking_api.Prelude.{ℕ, ◌+◌, ◌*◌, ◌≤◌, ◌<◌, ◌≡◌, ◌≢◌, Bool, true, [], ◌∷◌, ◌++◌, Text}
use saprk_parking_api.Ticket.Payload.{print_number}

abbrev pub qr_replay_ttl_seconds : ℕ
qr_replay_ttl_seconds = 600

-- What the server answers to `SET key 1 EX seconds NX` at a time: that it set the key, that it did
-- not, or no answer of these.
pub data SetAnswer : Type 0 where
  was_set was_there no_answer : SetAnswer

-- The server: its state, the command, and what its documentation says of the command. `held` says
-- that a key lives at a time.
pub record Redis : Type 1 where
  pub State : Type 0
  pub set_nx : Text → ℕ → ℕ → State → SetAnswer × State
  pub held : Text → ℕ → State → Bool
  pub set_then_held :
      (key : Text) (seconds now later : ℕ) (s : State)
      → (set_nx key seconds now s).0 ≡ was_set
      → now ≤ later
      → later < now + seconds * 1_000
      → held key later (set_nx key seconds now s).1 ≡ true
  pub others_kept :
      (key other : Text) (seconds now later : ℕ) (s : State)
      → now ≤ later
      → held key later s ≡ true
      → held key later (set_nx other seconds now s).1 ≡ true
  pub held_not_set :
      (key : Text) (seconds now : ℕ) (s : State)
      → held key now s ≡ true
      → (set_nx key seconds now s).0 ≢ was_set

pub data ReplayClaim : Type 0 where
  claimed replayed claim_unavailable : ReplayClaim

-- `spark:qr:seen:`
abbrev pub key_prefix : Text
key_prefix =
    b's' ∷ b'p' ∷ b'a' ∷ b'r' ∷ b'k' ∷ b':' ∷ b'q' ∷ b'r' ∷ b':' ∷ b's' ∷ b'e' ∷ b'e' ∷ b'n' ∷ b':'
    ∷ []

unfoldable pub claim_key : Text → ℕ → Text
claim_key booking_id unix_minute = key_prefix ++ (booking_id ++ b':' ∷ print_number unix_minute)

abbrev pub claim_of : SetAnswer → ReplayClaim
claim_of was_set = claimed
claim_of was_there = replayed
claim_of no_answer = claim_unavailable

module _ (redis : Redis) where
  unfoldable pub claim : Text → ℕ → ℕ → redis.State → ReplayClaim × redis.State
  claim booking_id unix_minute now s =
      let (answer, s') =
        redis.set_nx (claim_key booking_id unix_minute) qr_replay_ttl_seconds now s in
      (claim_of answer, s')
