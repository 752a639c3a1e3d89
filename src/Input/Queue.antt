-- ===== src/Input/Queue.antt =====
-- What the keyboard queue promises: a queue of at most 64 characters, which counts what it turns away.
use wig_osx.Base.{
  ℕ, ◌+◌, Bool, true, false, Option, none, some, List, [], ◌∷◌, ◌++◌, leb, ltb, if◌then◌else◌,
  length, uint32_max,
}

pub data Op : Type 0 where
  put : ℕ → Op
  get : Op

pub data Reply : Type 0 where
  accepted : Bool → Reply
  read : Option ℕ → Reply

pub record Queue : Type 0 where
  pub items : List ℕ
  pub dropped : ℕ

unfoldable pub push : Queue → ℕ → Bool × Queue
push q c =
    if leb 64 (length q.items)
    then (
      false,
      record q { dropped = if ltb q.dropped uint32_max then q.dropped + 1 else uint32_max },
    )
    else (true, record q { items = q.items ++ c ∷ [] })

unfoldable pub pop : Queue → Option ℕ × Queue
pop q = elim q.items [ [] ↦ (none, q) | c ∷ rest ↦ (some c, record q { items = rest }) ]

unfoldable pub step : Op → Queue → Reply × Queue
step (put c) q = let (b, r) = push q c in (accepted b, r)
step get q = let (c, r) = pop q in (read c, r)

unfoldable pub run : List Op → Queue → List Reply × Queue
run [] q = ([], q)
run (o ∷ os) q = let (r, t) = step o q in let (rs, u) = run os t in (r ∷ rs, u)
