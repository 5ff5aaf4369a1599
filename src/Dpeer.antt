-- ===== src/Dpeer.antt =====
-- dpeer.c, `dp_psend_data`: the loop that sends a buffer over a connection. `send` of the system is a
-- parameter.
pub mod Whole
pub mod Send
pub mod Framed
pub mod Receive
pub mod Received
pub mod World
pub mod Packets
pub mod Aligned
pub mod LinkState
pub mod Threads
pub mod Starts
pub mod Owner
pub mod Freed
pub mod Ended
pub mod Probes
pub mod Heads
pub mod Paced
pub mod Joined
mod Fixtures
mod Tests
mod Runs
use p2p_vn.Base.{
  ℕ, zero, suc, ◌<◌, ◌≤◌, ◌≡◌, Option, none, some, List, [], ◌++◌, ℤ, pos, neg, ◌==◌, if◌then◌else◌,
  length, take, drop,
}

-- What POSIX promises of `send` on a connected stream: the calls are numbered, `none` is -1, and a
-- call with bytes to send sends some of them.
pub record Socket : Type 0 where
  pub send : (call len : ℕ) → Option ℕ
  pub send-pos : (call len n : ℕ) → send call len ≡ some n → 0 < len → 0 < n
  pub send-le : (call len n : ℕ) → send call len ≡ some n → n ≤ len

-- The code and the bytes that were sent, after `sent` in the same call.
abbrev pub after : List ℕ → Option (ℤ × List ℕ) → Option (ℤ × List ℕ)
after sent none = none
after sent (some (ret, more)) = some (ret, sent ++ more)

-- `dp_psend_data` from the call number `call` on, where `buf` is what remains; `none` means that the
-- fuel ran out. On the code -1 the lock is given up.
unfoldable pub dp_psend_data : (fuel : ℕ) → Socket → (call : ℕ) → List ℕ → Option (ℤ × List ℕ)
dp_psend_data zero s call buf = none
dp_psend_data (suc fuel) s call buf = elim (s.send call (length buf)) [
  | none ↦ some (neg 1, [])
  | some tmit_sz ↦
      let rem = drop tmit_sz buf in
      let rest = after (take tmit_sz buf) (dp_psend_data fuel s (suc call) rem) in
      if length rem == 0 then some (pos 0, take tmit_sz buf) else rest
]
