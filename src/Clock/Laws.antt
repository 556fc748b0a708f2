-- ===== src/Clock/Laws.antt =====
-- What the program relies on of `Equal`, `UnixNano` and `Add`.
use coriolis_logger.Common.{
  suc, ◌+◌, ◌%◌, ◌<◌, ◌≡◌, ◌↔◌, arith, true, ltb, ℤ, pos, negsuc, ◌+ℤ◌, ◌*ℤ◌, IsInt64,
  wrap64-eq_of_IsInt64, eq_of_parts, int_laws, inl, inr, Bool-cases,
}
use coriolis_logger.Clock.{Time, equal, second, unix_nano, add}

equal_iff : (a b : Time) → (equal a b ≡ true) ↔ (a ≡ b)
equal_iff a b = ground arith

-- The nanoseconds since the epoch, before they are held to 64 bits.
abbrev pub nanos : Time → ℤ
nanos t = t.sec *ℤ pos second +ℤ pos t.nsec

pub unix_nano-eq_nanos : (t : Time) → IsInt64 (nanos t) → unix_nano t ≡ nanos t
unfolding unix_nano
unix_nano-eq_nanos t h = wrap64-eq_of_IsInt64 (nanos t) h

-- `Add` adds on the line of nanoseconds.
pub nanos-add : (t : Time) (d : ℤ) → t.nsec < second → nanos (add t d) ≡ nanos t +ℤ d
unfolding add
nanos-add t (pos d) h = elim (Bool-cases (ltb (t.nsec + d % second) second)) [
  | inl within ↦ rw within (eq_of_parts _ _ (omega int_laws))
  | inr carry ↦ rw carry (eq_of_parts _ _ (omega int_laws))
]
nanos-add t (negsuc d) h = elim (Bool-cases (ltb t.nsec (suc d % second))) [
  | inl borrow ↦ rw borrow (eq_of_parts _ _ (omega int_laws))
  | inr within ↦ rw within (eq_of_parts _ _ (omega int_laws))
]
