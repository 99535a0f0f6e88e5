-- ===== src/Dispatch/Left.antt =====
-- How many targets a failover has left to try.
use ya_router.Common.{
  ℕ, suc, ◌≤◌, ◌<◌, ◌≡◌, arith, Text, true, false, List, [], ◌∷◌, text_key, =?_iff, length,
  trim_space, contains, any, if◌then◌else◌,
}
use ya_router.Routing.Router.{same_target}

-- How many targets are left.
abbrev pub left : List Text → List Text → ℕ
left [] ex = 0
left (t ∷ ts) ex = if contains (trim_space t) ex then left ts ex else suc (left ts ex)

pub left-le : (ts ex : List Text) → left ts ex ≤ length ts
left-le [] ex = omega arith
left-le (t ∷ ts) ex = ground (arith, left-le ts ex)

left-grown : (ts ex : List Text) (x : Text) → left ts (x ∷ ex) ≤ left ts ex
left-grown [] ex x = omega arith
left-grown (t ∷ ts) ex x = ground (arith, left-grown ts ex x)

pub left-shrinks :
    (ts ex : List Text) (x : Text)
    → any (same_target x) ts ≡ true
    → contains (trim_space x) ex ≡ false
    → left ts (trim_space x ∷ ex) < left ts ex
left-shrinks [] ex x h k = absurd (ground arith)
left-shrinks (t ∷ ts) ex x h k = ground (
  arith,
  left-shrinks ts ex x,
  left-grown ts ex (trim_space x),
  =?_iff (trim_space x) (trim_space t),
)
