-- ===== src/Kernel/Drain.antt =====
-- No character is left behind.
use wig_osx.Base.{
  ℕ, zero, suc, ◌≡◌, refl, sym, ap, ◌∙◌, subst, inl, inr, Bool, true, false, not, ◌&&◌, List, [],
  ◌∷◌, ◌++◌, length, replicate, arith, ◌==◌, Bool-cases, pick_then, pick_else,
}
use wig_osx.Input.Refine.{length-contents}
use wig_osx.Input.{get_pending_character_count}
use wig_osx.Kernel.Model.{
  Model, core, CoreStands, Stands, raise, consume, consume_from, model_step, model_run,
  model_run-◌++◌,
}
use wig_osx.Kernel.Refine.{AllArrive, run-Stands}
use wig_osx.Kernel.{Event, interrupt, round, run}
use wig_osx.Shell.Line.{edit, Holds}
use wig_osx.Base.Lists.{length-nil}
use wig_osx.System.{System, running}

-- Characters typed into a line, one after the other.
unfoldable pub type_all : List ℕ → List ℕ → List ℕ
type_all [] line = line
type_all (c ∷ cs) line = type_all cs (edit c line)

-- The processor waits while characters are pending.
abbrev pub sleeps_on : Model → Bool
sleeps_on v = v.waiting && not (length v.queue.items == 0)

consume_from-sleeps_on :
    (items : List ℕ) (v : Model)
    → v.queue.items ≡ items
    → v.waiting ≡ false
    → sleeps_on (consume_from items v) ≡ false
unfolding consume_from
consume_from-sleeps_on [] v e h = ground (arith, e)
consume_from-sleeps_on (c ∷ cs) v e h = ground (arith, h)

model_step-sleeps_on :
    (e : Event) (v : Model) → sleeps_on v ≡ false → sleeps_on (model_step e v) ≡ false
unfolding model_step raise consume
model_step-sleeps_on (interrupt vector raw) v h = ground arith
model_step-sleeps_on round v h = elim (Bool-cases v.waiting) [
  | inl e ↦ ap sleeps_on (pick_then v.waiting _ _ e) ∙ h
  | inr e ↦ ap sleeps_on (pick_else v.waiting _ _ e) ∙ consume_from-sleeps_on v.queue.items v refl e
]

pub model_run-sleeps_on :
    (es : List Event) (v : Model) → sleeps_on v ≡ false → sleeps_on (model_run es v) ≡ false
unfolding model_run
model_run-sleeps_on [] v h = h
model_run-sleeps_on (e ∷ es) v h =
    model_run-sleeps_on es (model_step e v) (model_step-sleeps_on e v h)

-- Nothing is pending, the processor waits, and the line is this one.
pub record Drained (v : Model) (line : List ℕ) : Type 0 where
  pub items : v.queue.items ≡ []
  pub line_is : v.line ≡ line
  pub waits : v.waiting ≡ true

awake_drains :
    (items : List ℕ) (v : Model)
    → v.queue.items ≡ items
    → v.waiting ≡ false
    → Drained (model_run (replicate (suc (length items)) round) v) (type_all items v.line)
unfolding model_run model_step consume consume_from type_all
awake_drains [] v e h =
    subst (λ w. Drained w v.line) (sym (pick_else v.waiting _ _ h ∙ ap (λ l. consume_from l v) e))
      (record { items = e; line_is = refl; waits = refl })
awake_drains (c ∷ cs) v e h =
    subst
      (λ w. Drained (model_run (replicate (suc (length cs)) round) w) (type_all cs (edit c v.line)))
      (sym (pick_else v.waiting _ _ h ∙ ap (λ l. consume_from l v) e))
      (awake_drains cs (consume_from (c ∷ cs) v) refl h)

pub drains :
    (v : Model)
    → sleeps_on v ≡ false
    → Drained
        (model_run (replicate (suc (length v.queue.items)) round) v)
        (type_all v.queue.items v.line)
unfolding model_run model_step type_all
drains v h = elim (Bool-cases v.waiting) [
  | inl e ↦
      let nil = length-nil v.queue.items (ground (arith, h, e)) in
      subst (λ l. Drained (model_run (replicate (suc (length l)) round) v) (type_all l v.line))
        (sym nil)
        (subst (λ w. Drained w v.line) (sym (pick_then v.waiting _ _ e))
          (record { items = nil; line_is = refl; waits = e }))
  | inr e ↦ awake_drains v.queue.items v refl e
]

rounds_arrive : (es : List Event) (n : ℕ) → AllArrive es → AllArrive (es ++ replicate n round)
rounds_arrive [] zero h = h
rounds_arrive [] (suc n) h = (_, rounds_arrive [] n h)
rounds_arrive (e ∷ es) n (h, hs) = (h, rounds_arrive es n hs)

abbrev pub pending : System → ℕ
pending s = get_pending_character_count s.kernel.input

pub pending_lem :
    (s : System) (v : Model) → CoreStands (core s) v → length v.queue.items ≡ pending s
pending_lem s v st =
    ap (λ q. length q.items) (sym st.queue) ∙ length-contents s.kernel.input st.ring

module _ (line_status : ℕ → ℕ) where
  -- From a kernel at work whose processor does not wait while characters are pending, after any events: again the
  -- processor does not wait while characters are pending; and as many further rounds as characters are
  -- pending, and one more, type them all into the line, in order, leave none, and only then wait.
  pub run-drains :
      (es : List Event) (s : System) (v : Model)
      → Stands s v
      → AllArrive es
      → sleeps_on v ≡ false
      → (u : System) × (t : System) × (run line_status es s ≡ running u)
        × ((u.kernel.cpu.waiting && not (pending u == 0)) ≡ false)
        × (run line_status (es ++ replicate (suc (pending u)) round) s ≡ running t)
        × (pending t ≡ 0)
        × (t.kernel.cpu.waiting ≡ true)
        × Holds t.kernel.shell (type_all (model_run es v).queue.items (model_run es v).line)
  run-drains es s v st arrive h =
      let w = model_run es v in
      let (u, ends, stands) = run-Stands line_status es s v st arrive in
      let n = suc (pending u) in
      let (t, later, last) =
        run-Stands line_status (es ++ replicate n round) s v st (rounds_arrive es n arrive) in
      let awake = model_run-sleeps_on es v h in
      let here =
        model_run-◌++◌ es (replicate n round) v
        ∙ ap (λ k. model_run (replicate (suc k) round) w)
            (sym (pending_lem u w stands.core_stands)) in
      let there = subst (Stands t) here last in
      let done = drains w awake in
      (
        u,
        t,
        ends,
        ground (arith, awake, stands.core_stands.waiting, pending_lem u w stands.core_stands),
        later,
        sym (pending_lem t _ there.core_stands) ∙ ap length done.items,
        there.core_stands.waiting ∙ done.waits,
        subst (Holds t.kernel.shell) done.line_is there.line,
      )
