-- ===== src/Wire/Udp/Laws.antt =====
-- What the exchange of messages promises.
use workd.Prelude.{
  ℕ, ◌+◌, ◌≤◌, ◌<◌, ◌≡◌, refl, ap, ◌∙◌, ◌⊎◌, inl, inr, Bool, true, false, ◌&&◌, List, [], ◌∷◌, ◌++◌,
  arith, length, All, ltb, Bool-cases,
}
use workd.Prelude.Int.{ℤ, pos, minus_one, is_neg}
use workd.Prelude.Outcome.{ok}
use workd.Wire.Gid.{wire_gid_to_gid, wire_gid_to_gid-gid_to_wire_gid}
use workd.Wire.Syn.{Syn, format, msg_size}
use workd.Wire.Syn.Laws.{IsSyn, scan_msg-format, scan_msg-empty}
use workd.Wire.Udp.{
  eintr, again, Datagram, whole, failed, judge, recv_udp_msg, Attempt, outcome, send_from,
  send_udp_msg,
}

-- A datagram that brings the text of `im`.
pub record Brings (im : Syn) (d : Datagram) : Type 0 where
  pub text : d.msg ≡ format im
  pub size : d.r ≡ pos msg_size
  pub quiet : d.inject ≡ false

-- A message that one end sends is the message that the other end receives: on a socket that is open
-- and a datagram of full
-- length with the text of a message whose fields have their widths, `recv_udp_msg` returns 0, its
-- message is that one, and the address is the sender's, whatever the variables held before.
pub recv_udp_msg-format :
    (sd : ℕ) (im im0 : Syn) (d : Datagram) (addr : ℕ)
    → IsSyn im
    → Brings im d
    → recv_udp_msg (pos sd) d im0 addr ≡ ok (record { result = pos 0; im = im; addr = d.sender })
unfolding recv_udp_msg judge whole failed
recv_udp_msg-format sd im im0 d addr v b =
    let (tail, e) = scan_msg-format im (im0, d.gid) v in
    rw (b.text, e, b.size, b.quiet)
      (ap (λ g. ok (record { result = pos 0; im = record im { gid = g }; addr = d.sender }))
        (wire_gid_to_gid-gid_to_wire_gid im.gid d.v32 tail v.gid_valid))

-- An attempt that the code repeats, if it has retries left.
pub retriable : Attempt → Bool
retriable a = is_neg (outcome a) && again a.errno

-- How a call has gone, from `retry` retries on: some attempts that are repeated, and a last one.
pub record Tried (tries : List Attempt) (retry : ℕ) (r : ℤ) (used : ℕ) : Type 0 where
  pub before : List Attempt
  pub last : Attempt
  pub rest : List Attempt
  pub split : tries ≡ before ++ last ∷ rest
  pub repeated : All (λ a. retriable a ≡ true) before
  pub few : length before + retry ≤ 3
  pub number : used ≡ length before + 1
  pub verdict :
      ((whole (outcome last) ≡ true) × (r ≡ pos 0))
      ⊎ ((whole (outcome last) ≡ false)
          × (r ≡ minus_one)
          × ((retriable last ≡ false) ⊎ (length before + retry ≡ 3)))

last_try :
    (a : Attempt) (tries : List Attempt) (retry : ℕ) (r : ℤ)
    → retry ≤ 3
    → ((whole (outcome a) ≡ true) × (r ≡ pos 0))
      ⊎ ((whole (outcome a) ≡ false) × (r ≡ minus_one) × ((retriable a ≡ false) ⊎ (0 + retry ≡ 3)))
    → Tried (a ∷ tries) retry r 1
last_try a tries retry r h v = record {
  before = [];
  last = a;
  rest = tries;
  split = refl;
  repeated = tt;
  few = omega arith;
  number = refl;
  verdict = v;
}

send_from_again :
    (a : Attempt) (tries : List Attempt) (retry used : ℕ)
    → whole (outcome a) ≡ false
    → retriable a ≡ true
    → ltb retry 3 ≡ true
    → send_from (a ∷ tries) retry used ≡ send_from tries (retry + 1) (used + 1)
unfolding send_from retriable
send_from_again a tries retry used n t m = ground arith

send_from_lem :
    (tries : List Attempt) (retry used : ℕ)
    → retry ≤ 3
    → 3 < length tries + retry
    → (r : ℤ) × (k : ℕ) × (send_from tries retry used ≡ ok (r, used + k)) × Tried tries retry r k
unfolding send_from retriable
send_from_lem [] retry used h k = absurd (omega arith)
send_from_lem (a ∷ tries) retry used h k = elim (Bool-cases (whole (outcome a))) [
  | inl w ↦ (pos 0, 1, rw w, last_try a tries retry _ h (inl (w, refl)))
  | inr n ↦ elim (Bool-cases (retriable a)) [
    | inr s ↦ (minus_one, 1, ground arith, last_try a tries retry _ h (inr (n, refl, inl s)))
    | inl t ↦ elim (Bool-cases (ltb retry 3)) [
      | inr e ↦ (
        minus_one,
        1,
        ground arith,
        last_try a tries retry _ h (inr (n, refl, inr (ground arith))),
      )
      | inl m ↦
          let (r, j, e, tried) =
            send_from_lem tries (retry + 1) (used + 1) (ground arith) (omega (arith, k)) in
          (
            r,
            j + 1,
            send_from_again a tries retry used n t m ∙ e ∙ ap (λ u. ok (r, u)) (omega arith),
            record {
              before = a ∷ tried.before;
              last = tried.last;
              rest = tried.rest;
              split = ap (◌∷◌ a) tried.split;
              repeated = (t, tried.repeated);
              few = omega (arith, tried.few);
              number = omega (arith, tried.number);
              verdict = ground (arith, tried.verdict);
            },
          )
    ]
  ]
]

-- On a socket that is open and given four attempts, `send_udp_msg` returns: it has sent the text of the message, in at most
-- four attempts, all of which but the last failed with EINTR or EAGAIN; the result is 0 where the
-- last one sent the whole text, and -1 where it did not and either its error was another one or
-- it was the fourth.
pub send_udp_msg_lem :
    (sd : ℕ) (im : Syn) (attempts : List Attempt)
    → 4 ≤ length attempts
    → (r : ℤ) × (used : ℕ) × (send_udp_msg (pos sd) im attempts ≡ ok (format im, r, used))
      × (used ≤ 4)
      × Tried attempts 0 r used
unfolding send_udp_msg
send_udp_msg_lem sd im attempts h =
    let (r, k, e, t) = send_from_lem attempts 0 0 (omega arith) (omega arith) in
    (
      r,
      k,
      rw (e, send_udp_msg) (ap (λ u. ok (format im, r, u)) (omega arith)),
      omega (arith, t.few, t.number),
      t,
    )

-- A call of `recvfrom` that a signal interrupts, over a buffer that holds an empty text: the result is
-- 1, which is no error, and of the message only the GID changes, to what the variables happen to
-- hold.
pub recv_udp_msg-unheard :
    (sd : ℕ) (im0 : Syn) (d : Datagram) (addr : ℕ) (t : List ℕ)
    → d.msg ≡ 0 ∷ t
    → d.r ≡ minus_one
    → d.inject ≡ false
    → d.errno ≡ eintr
    → recv_udp_msg (pos sd) d im0 addr
      ≡ ok (record {
        result = pos 1;
        im = record im0 { gid = wire_gid_to_gid d.gid d.v32 };
        addr = addr;
      })
unfolding recv_udp_msg judge failed again
recv_udp_msg-unheard sd im0 d addr t e r n o = rw (e, scan_msg-empty t (im0, d.gid), r, n, o) refl
