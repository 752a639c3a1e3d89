-- ===== src/Serial/Trace.antt =====
-- What a write sends, read by read of the line status.
use wig_osx.Base.{
  pick_then, pick_else, ℕ, zero, suc, ◌+◌, ◌-◌, ◌%◌, ◌≤◌, ◌<◌, ◌≡◌, refl, sym, subst, ap, ◌∙◌, inl,
  inr, Bool, true, false, not, List, [], ◌∷◌, ◌++◌, append-nil, arith, ◌==◌, ==_iff, if◌then◌else◌,
  Bool-cases, bit_and,
}
use wig_osx.Pic.{outb}
use wig_osx.Serial.Sent.{crlf, crlf_cons, outs, outs-append, write_quiet}
use wig_osx.Serial.{
  Serial, serial_port_com1, transmit_timeout, can_transmit, wait_at_most, wait_can_transmit, send,
  putchar, write,
}

module _ (line_status : ℕ → ℕ) where
  -- Bit 5 of read `n` of the line status is not set: the transmitter is busy.
  abbrev pub busy : ℕ → Bool
  busy n = bit_and (line_status n) 0x20 == 0

  -- `Trace n bytes sent end ok`: `bytes` are to be sent from read `n` on. A byte is sent after the first read
  -- that finds the transmitter free, if that is one of the next 100001. If none of them is, that byte and those after it
  -- are not sent, and `ok` is `false`. `end` is the first read that is not made.
  pub data Trace : ℕ → List ℕ → List ℕ → ℕ → Bool → Type 0 where
    done : (n : ℕ) → Trace n [] [] n true
    sends :
        (n k c : ℕ) (bytes sent : List ℕ) (end : ℕ) (ok : Bool)
        → k ≤ 100000
        → ((i : ℕ) → i < k → busy (n + i) ≡ true)
        → busy (n + k) ≡ false
        → Trace (n + k + 1) bytes sent end ok
        → Trace n (c ∷ bytes) (c ∷ sent) end ok
    gives_up :
        (n c : ℕ) (bytes : List ℕ)
        → ((i : ℕ) → i ≤ 100000 → busy (n + i) ≡ true)
        → Trace n (c ∷ bytes) [] (n + 100001) false

  -- What went out between two states, on the way to sending some bytes.
  abbrev pub Run : Serial → List ℕ → Serial → Type 0
  Run s bytes t =
      (sent : List ℕ) × Trace s.reads bytes sent t.reads t.initialized
      × (t.writes ≡ s.writes ++ outs sent)

  -- How a wait of at most `m + 1` reads ends.
  data Waits (m : ℕ) (s : Serial) : Bool × Serial → Type 0 where
    ready :
        (k : ℕ)
        → k ≤ m
        → ((i : ℕ) → i < k → busy (s.reads + i) ≡ true)
        → busy (s.reads + k) ≡ false
        → Waits m s (true, record s { reads = s.reads + k + 1 })
    expired :
        ((i : ℕ) → i ≤ m → busy (s.reads + i) ≡ true)
        → Waits m s (false, record s { reads = s.reads + m + 1 })

  busy_at : (a b : ℕ) → a ≡ b → busy b ≡ true → busy a ≡ true
  busy_at a b e h = ap busy e ∙ h

  Waits-later :
      (m : ℕ) (s : Serial) (r : Bool × Serial)
      → busy s.reads ≡ true
      → Waits m (record s { reads = suc s.reads }) r
      → Waits (suc m) s r
  Waits-later m s _ h (ready k le before free) =
      subst (λ n. Waits (suc m) s (true, record s { reads = n })) (omega arith)
        (ready (suc k) (omega arith)
          (λ i p. elim (Bool-cases (i == 0)) [
            | inl e ↦ busy_at (s.reads + i) s.reads (ground (arith, e)) h
            | inr e ↦
                busy_at (s.reads + i) (suc s.reads + (i - 1)) (ground (arith, e))
                  (before (i - 1) (ground (arith, e)))
          ])
          (ap busy {x = s.reads + suc k} {y = suc s.reads + k} (omega arith) ∙ free))
  Waits-later m s _ h (expired before) =
      subst (λ n. Waits (suc m) s (false, record s { reads = n })) (omega arith)
        (expired (λ i p. elim (Bool-cases (i == 0)) [
          | inl e ↦ busy_at (s.reads + i) s.reads (ground (arith, e)) h
          | inr e ↦
              busy_at (s.reads + i) (suc s.reads + (i - 1)) (ground (arith, e))
                (before (i - 1) (ground (arith, e)))
        ]))

  Waits-now :
      (m : ℕ) (s : Serial)
      → busy s.reads ≡ false
      → Waits m s (true, record s { reads = suc s.reads })
  Waits-now m s h =
      subst (λ n. Waits m s (true, record s { reads = n })) (omega arith)
        (ready 0 (omega arith) (λ i p. absurd (omega arith))
          (ap busy {x = s.reads + 0} {y = s.reads} (omega arith) ∙ h))

  abbrev later : Serial → Serial
  later s = record s { reads = suc s.reads }

  last_read : (s : Serial) (b : Bool) → busy s.reads ≡ b → Waits 0 s (not b, later s)
  last_read s true h =
      subst (λ n. Waits 0 s (false, record s { reads = n })) (omega arith)
        (expired (λ i p. busy_at (s.reads + i) s.reads (omega arith) h))
  last_read s false h = Waits-now 0 s h

  one_read :
      (m : ℕ) (s : Serial) (r : Bool × Serial) (b : Bool)
      → busy s.reads ≡ b
      → Waits m (later s) r
      → Waits (suc m) s (elim (not b) [ true ↦ (true, later s) | false ↦ r ])
  one_read m s r true h w = Waits-later m s r h w
  one_read m s r false h w = Waits-now (suc m) s h

  wait_lem : (m : ℕ) (s : Serial) → Waits m s (wait_at_most line_status m s)
  unfolding wait_at_most can_transmit
  wait_lem zero s = last_read s (busy s.reads) refl
  wait_lem (suc m) s =
      one_read m s (wait_at_most line_status m (later s)) (busy s.reads) refl (wait_lem m (later s))

  -- One byte.
  send_after :
      (s : Serial) (c : ℕ) (r : Bool × Serial)
      → s.initialized ≡ true
      → Waits 100000 s r
      → Run s (c ∷ []) (
          if r.0
          then record r.1 { writes = r.1.writes ++ (outb serial_port_com1 (c % 256) ∷ []) }
          else record r.1 { initialized = false })
  send_after s c _ i (ready k le before free) = (
    c ∷ [],
    subst (λ ok. Trace s.reads (c ∷ []) (c ∷ []) (s.reads + k + 1) ok) (sym i)
        (sends s.reads k c [] [] _ true le before free (done _)),
    refl,
  )
  send_after s c _ i (expired before) = (
    [],
    subst (λ n. Trace s.reads (c ∷ []) [] n false) (omega arith) (gives_up s.reads c [] before),
    sym (append-nil s.writes),
  )

  send-Run : (s : Serial) (c : ℕ) → s.initialized ≡ true → Run s (c ∷ []) (send line_status s c)
  unfolding send wait_can_transmit transmit_timeout
  send-Run s c i = send_after s c _ i (wait_lem 100000 s)

  -- One part after the other.
  Trace-then :
      (n : ℕ) (xs ys a b : List ℕ) (mid end : ℕ) (ok last : Bool)
      → Trace n xs a mid ok
      → ok ≡ true
      → Trace mid ys b end last
      → Trace n (xs ++ ys) (a ++ b) end last
  Trace-then n _ ys _ b _ end _ last (done _) e next = next
  Trace-then n _ ys _ b mid end ok last (sends _ k c xs a _ _ le before free rest) e next =
      sends n k c (xs ++ ys) (a ++ b) end last le before free
        (Trace-then _ xs ys a b mid end ok last rest e next)
  Trace-then n _ ys _ b _ end _ last (gives_up _ c xs before) e next = absurd (ground (arith, e))

  -- Nothing is sent after giving up.
  Trace-stop :
      (n : ℕ) (xs ys a : List ℕ) (mid : ℕ) (ok : Bool)
      → Trace n xs a mid ok
      → ok ≡ false
      → Trace n (xs ++ ys) a mid ok
  Trace-stop n _ ys _ _ _ (done _) e = absurd (ground (arith, e))
  Trace-stop n _ ys _ mid ok (sends _ k c xs a _ _ le before free rest) e =
      sends n k c (xs ++ ys) a mid ok le before free (Trace-stop _ xs ys a mid ok rest e)
  Trace-stop n _ ys _ _ _ (gives_up _ c xs before) e = gives_up n c (xs ++ ys) before

  Run-append :
      (s t u : Serial) (xs ys : List ℕ)
      → Run s xs t
      → (t.initialized ≡ true → Run t ys u)
      → (t.initialized ≡ false → u ≡ t)
      → Run s (xs ++ ys) u
  Run-append s t u xs ys (a, trace, w) next same = elim (Bool-cases t.initialized) [
    | inl i ↦
        let (b, rest, v) = next i in
        (
          a ++ b,
          Trace-then _ xs ys a b _ _ _ _ trace i rest,
          v ∙ ap (λ ws. ws ++ outs b) w ∙ outs-append s.writes a b,
        )
    | inr i ↦ subst (Run s (xs ++ ys)) (sym (same i)) (a, Trace-stop _ xs ys a _ _ trace i, w)
  ]

  newline-Run :
      (s t : Serial)
      → Run s (13 ∷ []) t
      → Run s (13 ∷ (10 ∷ [])) (if not t.initialized then t else send line_status t 10)
  newline-Run s t h =
      Run-append s t _ (13 ∷ []) (10 ∷ []) h
        (λ i.
          subst (Run t (10 ∷ [])) (sym (pick_else (not t.initialized) _ _ (ap not i)))
            (send-Run t 10 i))
        (λ i. pick_then (not t.initialized) _ _ (ap not i))

  -- One character, whose byte is preceded by a carriage return or not.
  abbrev Sends : Serial → ℕ → Bool → Type 0
  Sends s c newline = Run s (if newline then 13 ∷ (10 ∷ []) else c ∷ []) (
      if newline
      then (if not (send line_status s 13).initialized
          then send line_status s 13
          else send line_status (send line_status s 13) c)
      else send line_status s c)

  putchar-Run :
      (s : Serial) (c : ℕ) → s.initialized ≡ true → Run s (crlf (c ∷ [])) (putchar line_status s c)
  unfolding putchar crlf
  putchar-Run s c i =
      subst (Run s (crlf (c ∷ []))) (sym (pick_else (not s.initialized) _ _ (ap not i)))
        (elim (Bool-cases (c == 10)) [
          | inl e ↦ subst (Sends s c) (sym e) (
              subst
                (λ x. Run s (13 ∷ (10 ∷ [])) (
                  if not (send line_status s 13).initialized
                  then send line_status s 13
                  else send line_status (send line_status s 13) x))
                (sym ((==_iff c 10).0 e)) (newline-Run s (send line_status s 13) (send-Run s 13 i)))
          | inr e ↦ subst (Sends s c) (sym e) (send-Run s c i)
        ])

  -- A text written to a port that works goes out byte by byte, with a carriage return before each newline. A byte
  -- goes out after the first read of the line status that finds the transmitter free, at most 100001 reads after
  -- the byte before it. The port is given up, and no longer counts as initialized, exactly when 100001 reads
  -- in a row find the transmitter busy, and then nothing more is sent. No other read and no other write is made.
  pub write-Run :
      (s : Serial) (cs : List ℕ) → s.initialized ≡ true → Run s (crlf cs) (write line_status s cs)
  unfolding write crlf
  write-Run s [] i =
      ([], subst (Trace s.reads [] [] s.reads) (sym i) (done s.reads), sym (append-nil s.writes))
  write-Run s (c ∷ cs) i =
      subst (λ l. Run s l (write line_status s (c ∷ cs))) (crlf_cons c cs)
        (Run-append s (putchar line_status s c) _ (crlf (c ∷ [])) (crlf cs) (putchar-Run s c i)
          (write-Run (putchar line_status s c) cs)
          (write_quiet line_status (putchar line_status s c) cs))
