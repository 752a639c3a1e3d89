-- ===== src/Serial/Sent.antt =====
-- What a write sends, whatever the port does.
use wig_osx.Base.{
  pick_then, pick_else, ℕ, zero, suc, ◌+◌, ◌*◌, ◌%◌, ◌≤◌, ◌<◌, ◌≡◌, refl, sym, subst, ap, ◌∙◌, inl,
  inr, Bool, true, false, not, List, [], ◌∷◌, ◌++◌, map, length, length-append, append-nil, arith,
  ◌==◌, ==_iff, if◌then◌else◌, Bool-cases,
}
use mathlib.Core.List.{append_assoc}
use wig_osx.Pic.{Write, outb}
use wig_osx.Serial.{
  Serial, serial_port_com1, transmit_timeout, can_transmit, wait_at_most, wait_can_transmit, send,
  putchar, write,
}

-- The bytes that stand for a text on the line: a carriage return before each newline.
unfoldable pub crlf : List ℕ → List ℕ
crlf [] = []
crlf (c ∷ cs) = if c == 10 then 13 ∷ (10 ∷ crlf cs) else c ∷ crlf cs

abbrev pub outs : List ℕ → List Write
outs = map (λ (c : ℕ). outb serial_port_com1 (c % 256))

-- How sending bytes on a port that worked ends: all of them are written, in order; or, for some first part of
-- them, that part is written and the port is given up. Each byte, and giving up, takes at most 100001
-- reads of the line status.
pub data Sending (s : Serial) (bytes : List ℕ) (t : Serial) : Type 0 where
  all_sent :
      t.initialized ≡ true
      → t.writes ≡ s.writes ++ outs bytes
      → t.reads ≤ s.reads + length bytes * 100001
      → Sending s bytes t
  gave_up :
      (sent rest : List ℕ)
      → bytes ≡ sent ++ rest
      → 0 < length rest
      → t.initialized ≡ false
      → t.writes ≡ s.writes ++ outs sent
      → t.reads ≤ s.reads + length sent * 100001 + 100001
      → Sending s bytes t

map-append : (f : ℕ → Write) (xs ys : List ℕ) → map f (xs ++ ys) ≡ map f xs ++ map f ys
map-append f [] ys = refl
map-append f (x ∷ xs) ys = ap (λ l. f x ∷ l) (map-append f xs ys)

pub outs-append :
    (ws : List Write) (xs ys : List ℕ) → (ws ++ outs xs) ++ outs ys ≡ ws ++ outs (xs ++ ys)
outs-append ws xs ys =
    append_assoc ws (outs xs) (outs ys) ∙ ap (λ l. ws ++ l) (sym (map-append _ xs ys))

module _ (line_status : ℕ → ℕ) where
  pub record Waited (n : ℕ) (s : Serial) (r : Bool × Serial) : Type 0 where
    pub initialized : r.1.initialized ≡ s.initialized
    pub writes : r.1.writes ≡ s.writes
    pub reads : r.1.reads ≤ s.reads + suc n

  pub wait_at_most-Waited : (n : ℕ) (s : Serial) → Waited n s (wait_at_most line_status n s)
  unfolding wait_at_most can_transmit
  wait_at_most-Waited zero s = record { initialized = refl; writes = refl; reads = omega arith }
  wait_at_most-Waited (suc n) s =
      let w = wait_at_most-Waited n (record s { reads = suc s.reads }) in
      record {
        initialized = ground (arith, w.initialized);
        writes = ground (arith, w.writes);
        reads = ground (arith, w.reads);
      }

  send_split :
      (s : Serial) (c : ℕ) (r : Bool × Serial)
      → s.initialized ≡ true
      → Waited 100000 s r
      → Sending s (c ∷ []) (
          if r.0
          then record r.1 { writes = r.1.writes ++ (outb serial_port_com1 (c % 256) ∷ []) }
          else record r.1 { initialized = false })
  send_split s c (true, t) i w =
      all_sent (w.initialized ∙ i) (ap (λ ws. ws ++ outs (c ∷ [])) w.writes)
        (omega (arith, w.reads))
  send_split s c (false, t) i w =
      gave_up [] (c ∷ []) refl (omega arith) refl (w.writes ∙ sym (append-nil s.writes))
        (omega (arith, w.reads))

  send-Sending :
      (s : Serial) (c : ℕ) → s.initialized ≡ true → Sending s (c ∷ []) (send line_status s c)
  unfolding send wait_can_transmit transmit_timeout
  send-Sending s c i = send_split s c _ i (wait_at_most-Waited 100000 s)

pub crlf_cons : (c : ℕ) (cs : List ℕ) → crlf (c ∷ []) ++ crlf cs ≡ crlf (c ∷ cs)
unfolding crlf
crlf_cons c cs = ground arith

-- One part after the other.
sent_then :
    (s t u : Serial) (xs ys : List ℕ)
    → t.writes ≡ s.writes ++ outs xs
    → t.reads ≤ s.reads + length xs * 100001
    → Sending t ys u
    → Sending s (xs ++ ys) u
sent_then s t u xs ys w r (all_sent i v q) =
    all_sent i (v ∙ ap (λ ws. ws ++ outs ys) w ∙ outs-append s.writes xs ys)
      (omega (arith, length-append xs ys))
sent_then s t u xs ys w r (gave_up sent rest e pos i v q) =
    gave_up (xs ++ sent) rest (ap (λ l. xs ++ l) e ∙ sym (append_assoc xs sent rest)) pos i
      (v ∙ ap (λ ws. ws ++ outs sent) w ∙ outs-append s.writes xs sent)
      (omega (arith, length-append xs sent))

Sending-append :
    (s t u : Serial) (xs ys : List ℕ)
    → Sending s xs t
    → (t.initialized ≡ true → Sending t ys u)
    → (t.initialized ≡ false → u ≡ t)
    → Sending s (xs ++ ys) u
Sending-append s t u xs ys (all_sent i w r) next same = sent_then s t u xs ys w r (next i)
Sending-append s t u xs ys (gave_up sent rest e pos i w r) next same =
    subst (λ v. Sending s (xs ++ ys) v) (sym (same i))
      (gave_up sent (rest ++ ys) (ap (λ l. l ++ ys) e ∙ append_assoc sent rest ys)
        (omega (arith, length-append rest ys)) i w r)

module _ (line_status : ℕ → ℕ) where
  -- A port that was given up is left alone.
  pub write_quiet : (s : Serial) (cs : List ℕ) → s.initialized ≡ false → write line_status s cs ≡ s
  unfolding write putchar
  write_quiet s [] h = refl
  write_quiet s (c ∷ cs) h =
      let same : putchar line_status s c ≡ s = ground (arith, h) in
      ap (λ t. write line_status t cs) same ∙ write_quiet s cs h

  newline-Sending :
      (s t : Serial)
      → Sending s (13 ∷ []) t
      → Sending s (13 ∷ (10 ∷ [])) (if not t.initialized then t else send line_status t 10)
  newline-Sending s t h =
      Sending-append s t _ (13 ∷ []) (10 ∷ []) h
        (λ i.
          subst (Sending t (10 ∷ [])) (sym (pick_else (not t.initialized) _ _ (ap not i)))
            (send-Sending line_status t 10 i))
        (λ i. pick_then (not t.initialized) _ _ (ap not i))

  putchar-Sending :
      (s : Serial) (c : ℕ)
      → s.initialized ≡ true
      → Sending s (crlf (c ∷ [])) (putchar line_status s c)
  unfolding putchar crlf
  putchar-Sending s c i =
      subst (Sending s (crlf (c ∷ []))) (sym (pick_else (not s.initialized) _ _ (ap not i)))
        (elim (Bool-cases (c == 10)) [
          | inl e ↦
              let sent =
                newline-Sending s (send line_status s 13) (send-Sending line_status s 13 i) in
              rw e (
                subst
                  (λ x. Sending s (13 ∷ (10 ∷ [])) (
                    if not (send line_status s 13).initialized
                    then send line_status s 13
                    else send line_status (send line_status s 13) x))
                  (sym ((==_iff c 10).0 e)) sent)
          | inr e ↦ rw e (send-Sending line_status s c i)
        ])

  -- A text written to a port that works is sent as `Sending` says, with a carriage return before each newline.
  pub write-Sending :
      (s : Serial) (cs : List ℕ)
      → s.initialized ≡ true
      → Sending s (crlf cs) (write line_status s cs)
  unfolding write crlf
  write-Sending s [] i = all_sent i (sym (append-nil s.writes)) (omega arith)
  write-Sending s (c ∷ cs) i =
      subst (λ l. Sending s l (write line_status s (c ∷ cs))) (crlf_cons c cs)
        (Sending-append s (putchar line_status s c) _ (crlf (c ∷ [])) (crlf cs)
          (putchar-Sending s c i) (write-Sending (putchar line_status s c) cs)
          (write_quiet (putchar line_status s c) cs))
