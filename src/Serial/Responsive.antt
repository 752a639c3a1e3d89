-- ===== src/Serial/Responsive.antt =====
-- A port whose transmitter always becomes free in time.
use wig_osx.Base.{
  ℕ, zero, suc, ◌+◌, ◌*◌, ◌≤◌, ◌≡◌, ap, ◌∙◌, true, false, List, [], ◌∷◌, ◌++◌, length, arith, ◌==◌,
  pick_then, bit_and,
}
use wig_osx.Serial.Sent.{crlf, outs, Sending, all_sent, gave_up, write-Sending, wait_at_most-Waited}
use wig_osx.Serial.{
  Serial, transmit_timeout, can_transmit, wait_at_most, wait_can_transmit, send, putchar, write,
  initialize, setup,
}

-- From any read of the line status on, one of the next 100001 says that the transmitter is free.
abbrev pub Responsive : (ℕ → ℕ) → Type 0
Responsive line_status =
    (n : ℕ) → (k : ℕ) × (k ≤ 100000) × ((bit_and (line_status (n + k)) 0x20 == 0) ≡ false)

module _ (line_status : ℕ → ℕ) where
  wait_ready :
      (n k : ℕ) (s : Serial)
      → k ≤ n
      → (bit_and (line_status (s.reads + k)) 0x20 == 0) ≡ false
      → (wait_at_most line_status n s).0 ≡ true
  unfolding wait_at_most can_transmit
  wait_ready zero k s h e = ground (arith, e, ap line_status {x = s.reads + k} {y = s.reads})
  wait_ready (suc n) zero s h e = ground (arith, e, ap line_status {x = s.reads + 0} {y = s.reads})
  wait_ready (suc n) (suc k) s h e = ground (
    arith,
    wait_ready n k (record s { reads = suc s.reads }),
    e,
    ap line_status {x = suc s.reads + k} {y = s.reads + suc k},
  )

  module _ (free : Responsive line_status) where
    wait_succeeds : (s : Serial) → (wait_can_transmit line_status s).0 ≡ true
    unfolding wait_can_transmit transmit_timeout
    wait_succeeds s = let (k, h, e) = free s.reads in wait_ready 100000 k s h e

    waits-initialized :
        (s : Serial) → (wait_can_transmit line_status s).1.initialized ≡ s.initialized
    unfolding wait_can_transmit transmit_timeout
    waits-initialized s = (wait_at_most-Waited line_status 100000 s).initialized

    send-initialized : (s : Serial) (c : ℕ) → (send line_status s c).initialized ≡ s.initialized
    unfolding send
    send-initialized s c =
        ap (λ (t : Serial). t.initialized)
          (pick_then (wait_can_transmit line_status s).0 _ _ (wait_succeeds s))
        ∙ waits-initialized s

    putchar-initialized :
        (s : Serial) (c : ℕ) → s.initialized ≡ true → (putchar line_status s c).initialized ≡ true
    unfolding putchar
    putchar-initialized s c i = ground (
      arith,
      send-initialized s c,
      send-initialized s 13,
      send-initialized (send line_status s 13) c,
      i,
    )

    write-initialized :
        (s : Serial) (cs : List ℕ)
        → s.initialized ≡ true
        → (write line_status s cs).initialized ≡ true
    unfolding write
    write-initialized s [] i = i
    write-initialized s (c ∷ cs) i =
        write-initialized (putchar line_status s c) cs (putchar-initialized s c i)

    sent_whole :
        (s t : Serial) (bytes : List ℕ)
        → Sending s bytes t
        → t.initialized ≡ true
        → (t.writes ≡ s.writes ++ outs bytes) × (t.reads ≤ s.reads + length bytes * 100001)
    sent_whole s t bytes (all_sent i w r) j = (w, r)
    sent_whole s t bytes (gave_up sent rest e pos i w r) j = absurd (ground (arith, i, j))

    -- On a port that becomes free in time, `serial_initialize` succeeds from any state; and a text written to a
    -- port that works is sent whole, with a carriage return before each newline, at no more than 100001 reads
    -- of the line status for each byte, and the port still works.
    pub write-Responsive :
        (s old : Serial) (cs : List ℕ)
        → s.initialized ≡ true
        → ((initialize line_status old).0 ≡ true)
          × ((initialize line_status old).1.initialized ≡ true)
          × ((write line_status s cs).writes ≡ s.writes ++ outs (crlf cs))
          × ((write line_status s cs).reads ≤ s.reads + length (crlf cs) * 100001)
          × ((write line_status s cs).initialized ≡ true)
    unfolding initialize
    write-Responsive s old cs i =
        let w = write-initialized s cs i in
        let (ws, rs) = sent_whole s _ (crlf cs) (write-Sending line_status s cs i) w in
        let up = wait_succeeds (record old { initialized = false; writes = old.writes ++ setup }) in
        (up, up, ws, rs, w)
