-- ===== src/FileCopy/Transfer/Invariant.antt =====
-- What holds of the sender, the receiver and the network between any two rounds of ncp.c and rcv.c.
use cs2520_2021spring.Common.{
  some_eq, drop-all, All-middle, All-zip, length-drop, All-map, All-mono, ◌≢◌, length-take, ℕ, suc,
  ◌+◌, ◌*◌, ◌-◌, ◌≤◌, ◌<◌, ◌≡◌, refl, sym, ◌∙◌, ap, subst, ◌⊎◌, inl, inr, true, false, Option, none,
  some, List, [], ◌∷◌, ◌++◌, map, length, drop, All, All-append, arith,
}
use cs2520_2021spring.Common.Int.{pos_part, pos, negsuc, ◌≤ℤ◌, ◌==ℤ◌}
use cs2520_2021spring.Common.Bytes.{overwrite, cstr, NoNul}
use cs2520_2021spring.FileCopy.Message.{Header, Datagram, Addr, same_addr, chunk_len}
use cs2520_2021spring.FileCopy.Buffer.{
  NoNul-drop, NoNul-take, cstr-NoNul, IsEnded, cstr-overwrite_ended,
}
use cs2520_2021spring.FileCopy.Sender
use cs2520_2021spring.FileCopy.Sender.Invariant.{block, Truthful}
use cs2520_2021spring.FileCopy.Sender.Invariant
use cs2520_2021spring.FileCopy.Sender.Rounds.{round-Sound}
use cs2520_2021spring.FileCopy.Sender.Ended.{Ended, EndedOut, round-Ended}
use cs2520_2021spring.FileCopy.Sender.Bounds.{round-bounds}
use cs2520_2021spring.FileCopy.Receiver
use cs2520_2021spring.FileCopy.Receiver.{Receiver, Round}
use cs2520_2021spring.FileCopy.Receiver.Slots
use cs2520_2021spring.FileCopy.Receiver.Delivery.{Conforms, round-Inv}
use cs2520_2021spring.FileCopy.Receiver.Frame.{Ready, Frame, Below, Brings, round-Frame}
use cs2520_2021spring.FileCopy.Transfer.{
  Link, here, deliver, idle, answer, tick, later, World, Step, Reach, datagram_of, header_of, reply,
  sent, received,
}

-- The text of a packet that carries a whole block is that block.
abbrev pub IsBlock : List ℕ → ℕ → List ℕ → Type 0
IsBlock content n text = chunk_len * n ≤ length content → text ≡ block content n

-- A datagram in the network: a packet up to `tail`, with its text, or the last one.
abbrev pub Sent : List ℕ → ℕ → Datagram → Type 0
Sent content tail d =
    IsEnded 1359 d.payload
    × (((n : ℕ) × (d.hdr.seq ≡ pos n)
          × (0 < n)
          × (n ≤ tail)
          × (cstr d.payload ≡ cstr (block content n)))
        ⊎ (d.hdr.seq ≡ negsuc 0))

abbrev pub Acks : ℕ → Header → Type 0
Acks c h = h.cack ≤ℤ pos c

pub record Inv (content : List ℕ) (peer : Addr) (w : World) : Type 0 where
  pub sender : Sender.Invariant.Inv content w.sender
  pub ended : Ended w.sender
  pub started : 0 < w.sender.head
  pub acked : w.sender.head ≤ w.receiver.c_ack + 1
  pub receiver : Receiver.Slots.Inv (IsBlock content) w.receiver
  pub ready : Ready w.receiver
  pub session : same_addr w.receiver.current peer ≡ true
  pub packets : All (Sent content w.sender.tail) w.to_receiver
  pub acks : All (Acks w.receiver.c_ack) w.to_sender

Sent-of :
    (content : List ℕ) (tail : ℕ) (o : Sender.Out)
    → Truthful content tail o × EndedOut o
    → Sent content tail (datagram_of o)
Sent-of content tail (Sender.lossy d) (h, e) = (e, inl h)
Sent-of content tail (Sender.direct d) (h, e) = (e, inr h)

pub outs-Sent :
    (content : List ℕ) (tail : ℕ) (outs : List Sender.Out)
    → All (Truthful content tail) outs
    → All EndedOut outs
    → All (Sent content tail) (map datagram_of outs)
outs-Sent content tail outs truthful ended =
    All-map (Sent content tail) (λ o. Truthful content tail o × EndedOut o) datagram_of outs
      (Sent-of content tail) (All-zip (Truthful content tail) EndedOut outs truthful ended)

Sent-mono :
    (content : List ℕ) (a b : ℕ) → a ≤ b → (d : Datagram) → Sent content a d → Sent content b d
Sent-mono content a b h d (e, inl (n, s, low, le, t)) = (e, inl (n, s, low, omega arith, t))
Sent-mono content a b h d (e, inr s) = (e, inr s)

positive : (m : ℕ) → 0 < m → (pos m ==ℤ pos 0) ≡ false
positive m low = ground arith

short_text : (d : List ℕ) → length d ≤ 1359 → IsEnded 1359 d
unfolding cstr
short_text d h = subst (λ t. cstr t ≡ []) (sym (drop-all 1359 d h)) refl

pos_not_negsuc : (n : ℕ) → pos (suc n) ≢ negsuc 0
pos_not_negsuc n e = absurd (ground (arith, e))

Below-Acks : (c : ℕ) (o : Receiver.Out) → Below c o → Acks c (header_of o)
Below-Acks c (Receiver.lossy to h) b = b
Below-Acks c (Receiver.direct to h) b = b

module _ (content : List ℕ) (link : Link) (plain : NoNul content)
    (short : length link.echo_text ≤ 1359) where
  -- A block that lies within the file is a whole one.
  whole_block :
      (n : ℕ)
      → 0 < n
      → chunk_len * n ≤ length content
      → (length (block content n) ≡ 1359) × (cstr (block content n) ≡ block content n)
  whole_block n low h = (
    length-take {0} 1359 (drop (1359 * (n - 1)) content)
        (omega (arith, length-drop {0} (1359 * (n - 1)) content)),
    cstr-NoNul (block content n) (NoNul-take 1359 _ (NoNul-drop (1359 * (n - 1)) content plain)),
  )

  received_text :
      (n : ℕ) (old d : List ℕ)
      → 0 < n
      → length old ≡ 1360
      → IsEnded 1359 old
      → cstr d ≡ cstr (block content n)
      → IsBlock content n (cstr (overwrite old d))
  received_text n old d low len ended same h =
      let (full, plain_block) = whole_block n low h in
      let text : cstr d ≡ block content n = same ∙ plain_block in
      let size : length (cstr d) ≡ 1359 = ap length text ∙ full in
      cstr-overwrite_ended old d (omega arith) (subst (λ k. IsEnded k old) (sym size) ended) ∙ text

  -- What the network brings to the receiver is what it may bring.
  Sent-Conforms :
      (w : World) (d : Datagram)
      → Inv content link.peer w
      → Sent content w.sender.tail d
      → Conforms (IsBlock content) w.receiver (some (link.peer, d))
  Sent-Conforms w d v (e, inr last) same n s = absurd (pos_not_negsuc n (sym s ∙ last))
  Sent-Conforms w d v (e, inl (m, s, low, le, text)) same n number =
      let same_number : m ≡ suc n = ap pos_part (sym s ∙ number) in
      (
        omega (arith, v.sender.span, v.acked),
        subst (λ k. IsBlock content k (cstr (overwrite w.receiver.mess.text d.payload))) same_number
            (received_text m w.receiver.mess.text d.payload low v.ready.len v.ready.ended text),
      )

  pub Sent-Brings :
      (w : World) (d : Datagram)
      → Inv content link.peer w
      → Sent content w.sender.tail d
      → Brings w.receiver (some (link.peer, d))
  Sent-Brings w d v (e, inr last) = (e, inl (rw last refl), v.session)
  Sent-Brings w d v (e, inl (m, s, low, le, text)) = (e, inl (rw s (positive m low)), v.session)

  pub received-Inv :
      (e : Round) (t : Receiver × List Receiver.Out) (w : World)
      → Inv content link.peer w
      → Conforms (IsBlock content) w.receiver e.arrival
      → Brings w.receiver e.arrival
      → Receiver.round e w.receiver ≡ some t
      → Inv content link.peer (received t w)
  received-Inv e t w v good brings p =
      let (x, q, f) = round-Frame e w.receiver v.ready brings in
      let g : Frame w.receiver t = subst (Frame w.receiver) (some_eq (sym q ∙ p)) f in
      record {
        sender = v.sender;
        ended = v.ended;
        started = v.started;
        acked = omega (arith, v.acked, g.further);
        receiver = round-Inv (IsBlock content) e w.receiver t.0 t.1 v.receiver good p;
        ready = g.ready;
        session = rw g.current v.session;
        packets = v.packets;
        acks =
            All-append (Acks t.0.c_ack) w.to_sender (map header_of t.1)
              (All-mono (Acks w.receiver.c_ack) (Acks t.0.c_ack) w.to_sender
                (λ h a. omega (arith, a, g.further)) v.acks)
              (All-map (Acks t.0.c_ack) (Below t.0.c_ack) header_of t.1 (Below-Acks t.0.c_ack)
                g.replies);
      }

  sent-Inv :
      (num : ℕ) (d : Option Datagram) (w : World)
      → Inv content link.peer w
      → ((x : Datagram) → d ≡ some x → IsEnded 1359 x.payload × Acks w.receiver.c_ack x.hdr)
      → Inv content link.peer (sent (Sender.round num d w.sender) w)
  sent-Inv num d w v may =
      let r = Sender.round num d w.sender in
      let (inv, truthful) = round-Sound content num d w.sender v.sender v.started in
      let (ends, ended_out) = round-Ended num d w.sender (λ x e. (may x e).0) v.ended in
      let b =
        round-bounds num d w.sender (w.receiver.c_ack + 1) v.acked
          (λ x e. omega (arith, (may x e).1)) in
      record {
        sender = inv;
        ended = ends;
        started = omega (arith, v.started, b);
        acked = b.1;
        receiver = v.receiver;
        ready = v.ready;
        session = v.session;
        packets =
            All-append (Sent content r.0.tail) w.to_receiver (map datagram_of r.1)
              (All-mono (Sent content w.sender.tail) (Sent content r.0.tail) w.to_receiver
                (Sent-mono content w.sender.tail r.0.tail b.2) v.packets)
              (outs-Sent content r.0.tail r.1 truthful ended_out);
        acks = v.acks;
      }

  received-further :
      (e : Round) (t : Receiver × List Receiver.Out) (w : World)
      → Inv content link.peer w
      → Brings w.receiver e.arrival
      → Receiver.round e w.receiver ≡ some t
      → w.receiver.c_ack ≤ t.0.c_ack
  received-further e t w v brings p =
      let (x, q, f) = round-Frame e w.receiver v.ready brings in
      (subst (Frame w.receiver) (some_eq (sym q ∙ p)) f).further

  deliver_one :
      (w : World) (before after : List Datagram) (d : Datagram)
      → w.to_receiver ≡ before ++ d ∷ after
      → Inv content link.peer w
      → Sent content w.sender.tail d
  deliver_one w before after d split v =
      All-middle (Sent content w.sender.tail) before after d
        (subst (All (Sent content w.sender.tail)) split v.packets)

  -- No round takes a packet back.
  pub Step-further :
      {w t : World} → Step link w t → Inv content link.peer w → w.receiver.c_ack ≤ t.receiver.c_ack
  Step-further (tick num going) v = omega arith
  Step-further (answer num before after h going split) v = omega arith
  Step-further {w} (idle now clock opened t p) v = received-further _ t w v tt p
  Step-further {w} (deliver now clock opened before after d t split p) v =
      received-further _ t w v (Sent-Brings w d v (deliver_one w before after d split v)) p

  -- For a file without NUL bytes, and an unwritten text behind the replies of at most 1359 bytes: every
  -- round of either loop keeps what holds between rounds, whatever the network does. The sender's window
  -- has the packets of its numbers, what is in the network is one of the packets that were read or the
  -- last one, or an acknowledgement of packets that the receiver has written, and the file is the blocks
  -- up to `C_ack`.
  pub Step-Inv : {w t : World} → Step link w t → Inv content link.peer w → Inv content link.peer t
  Step-Inv {w} (tick num going) v = sent-Inv num none w v (λ x e. cc)
  Step-Inv {w} (answer num before after h going split) v =
      let a =
        All-middle (Acks w.receiver.c_ack) before after h
          (subst (All (Acks w.receiver.c_ack)) split v.acks) in
      sent-Inv num (some (reply link h)) w v (λ x e.
        subst (λ y. IsEnded 1359 y.payload × Acks w.receiver.c_ack y.hdr) (some_eq e)
          (short_text link.echo_text short, a))
  Step-Inv {w} (idle now clock opened t p) v = received-Inv _ t w v tt tt p
  Step-Inv {w} (deliver now clock opened before after d t split p) v =
      let s = deliver_one w before after d split v in
      received-Inv _ t w v (Sent-Conforms w d v s) (Sent-Brings w d v s) p

  pub Reach-Inv : {w t : World} → Inv content link.peer w → Reach link w t → Inv content link.peer t
  Reach-Inv v here = v
  Reach-Inv v (later r s) = Step-Inv s (Reach-Inv v r)
