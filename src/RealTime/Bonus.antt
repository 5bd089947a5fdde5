-- ===== src/RealTime/Bonus.antt =====
-- p2/source/bonus/rt_srv.c and p2/source/bonus/rt_rcv.c: the transport for an application whose datagrams are
-- bytes, without a number and a time. The two programs are those of p2/source but for what they take from
-- the application and give to it, and for `MAX_DATA_LEN`, which is 1316.
mod Tests
use cs2520_2021spring.Common.{
  zero, suc, length-append, ap₂, append-nil, suc, ℕ, ◌+◌, ◌≤◌, ◌≡◌, ◌≢◌, refl, ap, sym, ◌∙◌, subst,
  arith, Option, none, some, some_eq, List, [], ◌∷◌, ◌++◌, length, take, drop, All,
}
use mathlib.Core.List.{Sublist}
use cs2520_2021spring.Common.Int.{ℤ}
use cs2520_2021spring.Timeval.{Timeval}
use cs2520_2021spring.RealTime.Packet.{StreamPkt}
use cs2520_2021spring.RealTime.Server
use cs2520_2021spring.RealTime.Receiver.{Receiver}
use cs2520_2021spring.RealTime.Server.{Server, AppPkt, on_app}
use cs2520_2021spring.RealTime.Transfer.{World, Reach, later, here, Step, app, begin, sent}
use cs2520_2021spring.RealTime.Transfer.Channel.{Connected, contents, handed_in_order}

abbrev pub max_data_len : ℕ
max_data_len = 1316

-- `recvfrom` into `app_pkt.data`: what does not fit is cut off, and behind a short datagram stands what was
-- there before.
unfoldable pub fill : List ℕ → List ℕ → List ℕ
fill datagram buf = take max_data_len datagram ++ drop (length datagram) buf

-- Data of the application, with `app_pkt.data` as it was. The last 12 bytes that are copied stand behind
-- `app_pkt`; they are an argument, as far as they go, and land in the fields behind `data`. `none` is
-- the end of the program at an empty datagram.
unfoldable pub on_raw :
    Timeval → List ℕ → AppPkt → List ℕ → Server → Option ((Server × List Server.Out) × List ℕ)
on_raw now [] behind buf s = none
on_raw now (b ∷ bs) behind buf s =
    let filled = fill (b ∷ bs) buf in
    some (on_app now (record behind { content = filled }) s, filled)

-- What the application at the other end gets.
unfoldable pub raw : List StreamPkt → List (List ℕ)
raw [] = []
raw (p ∷ ps) = p.content ∷ raw ps

-- The two programs with the network between them, from `w`: the datagrams so far, and `app_pkt.data`.
pub data Run (w : World) (start : List ℕ) : List (List ℕ) → List ℕ → World → Type 0 where
  begins : Run w start [] start w
  gives :
      {ds : List (List ℕ)} {buf : List ℕ} {t : World}
      → Run w start ds buf t
      → (now : Timeval) (d : List ℕ) (behind : AppPkt) (x : (Server × List Server.Out) × List ℕ)
      → on_raw now d behind buf t.server ≡ some x
      → Run w start (ds ++ d ∷ []) x.1 (record (sent x.0 t) { given = t.given ++ x.1 ∷ [] })
  goes :
      {ds : List (List ℕ)} {buf : List ℕ} {t u : World}
      → Run w start ds buf t
      → Step t u
      → u.given ≡ t.given
      → Run w start ds buf u

-- A block of 1316 bytes that begins with the datagram, as far as it fits.
abbrev pub Holds : List ℕ → List ℕ → Type 0
Holds g d = (length g ≡ max_data_len) × (rest : List ℕ) × (g ≡ take max_data_len d ++ rest)

abbrev pub HoldAll : List (List ℕ) → List (List ℕ) → Type 0
HoldAll [] [] = Unit
HoldAll (g ∷ gs) (d ∷ ds) = Holds g d × HoldAll gs ds
HoldAll gs ds = ⊥

HoldAll-append :
    (gs ds : List (List ℕ)) (g d : List ℕ)
    → HoldAll gs ds
    → Holds g d
    → HoldAll (gs ++ g ∷ []) (ds ++ d ∷ [])
HoldAll-append [] [] g d h one = (one, tt)
HoldAll-append [] (y ∷ ds) g d h one = absurd h
HoldAll-append (x ∷ gs) [] g d h one = absurd h
HoldAll-append (x ∷ gs) (y ∷ ds) g d h one = (h.0, HoldAll-append gs ds g d h.1 one)

length-fill :
    (n : ℕ) (d buf : List ℕ) → length buf ≡ n → length (take n d ++ drop (length d) buf) ≡ n
length-fill zero [] [] e = refl
length-fill zero (x ∷ d) [] e = refl
length-fill zero d (y ∷ buf) e = absurd (omega (arith, e))
length-fill (suc n) [] buf e = e
length-fill (suc n) (x ∷ d) [] e = absurd (omega (arith, e))
length-fill (suc n) (x ∷ d) (y ∷ buf) e =
    let ih = length-fill n d buf (omega (arith, e)) in omega (arith, ih)

fill-Holds : (d buf : List ℕ) → length buf ≡ max_data_len → Holds (fill d buf) d
unfolding fill
fill-Holds d buf e = (length-fill max_data_len d buf e, drop (length d) buf, refl)

-- What a branch for the application has made of the world.
abbrev gave : (Server × List Server.Out) × List ℕ → World → World
gave x t = record (sent x.0 t) { given = t.given ++ x.1 ∷ [] }

on_raw-Reach :
    (w t : World) (now : Timeval) (d : List ℕ) (behind : AppPkt) (buf : List ℕ)
    (x : (Server × List Server.Out) × List ℕ)
    → on_raw now d behind buf t.server ≡ some x
    → Reach w t
    → Reach w (gave x t) × (x.1 ≡ fill d buf)
unfolding on_raw
on_raw-Reach w t now [] behind buf x e r = cc
on_raw-Reach w t now (b ∷ bs) behind buf x e r =
    let same = some_eq e in
    let filled = fill (b ∷ bs) buf in
    (
      subst (λ y. Reach w (gave y t)) same (later r (app now (record behind { content = filled }))),
      ap (λ y. y.1) (sym same),
    )

Run-Reach :
    {w : World} {start : List ℕ} {ds : List (List ℕ)} {buf : List ℕ} {t : World}
    → Run w start ds buf t
    → length start ≡ max_data_len
    → w.given ≡ []
    → Reach w t × (length buf ≡ max_data_len) × HoldAll t.given ds
Run-Reach begins len none_yet = (here, len, subst (λ gs. HoldAll gs []) (sym none_yet) tt)
Run-Reach {w = w} (gives {ds = ds} {buf = buf} {t = t} r now d behind x e) len none_yet =
    let (reach, fits, all) = Run-Reach r len none_yet in
    let (next, filled) = on_raw-Reach w t now d behind buf x e reach in
    let one = subst (λ g. Holds g d) (sym filled) (fill-Holds d buf fits) in
    (next, one.0, HoldAll-append t.given ds x.1 d all one)
Run-Reach (goes {ds = ds} r step same) len none_yet =
    let (reach, fits, all) = Run-Reach r len none_yet in
    (later reach step, fits, subst (λ gs. HoldAll gs ds) (sym same) all)

take-all : (n : ℕ) (d : List ℕ) → length d ≡ n → take n d ≡ d
take-all zero [] e = refl
take-all zero (x ∷ d) e = absurd (omega (arith, e))
take-all (suc n) [] e = refl
take-all (suc n) (x ∷ d) e = ap (λ t. x ∷ t) (take-all n d (omega (arith, e)))

Holds-full : (g d : List ℕ) → length d ≡ max_data_len → Holds g d → g ≡ d
Holds-full g d full (len, [], e) =
    e ∙ append-nil (take max_data_len d) ∙ take-all max_data_len d full
Holds-full g d full (len, x ∷ rest, e) = absurd (
    omega (
      arith,
      len,
      ap length e,
      length-append (take max_data_len d) (x ∷ rest),
      ap length (take-all max_data_len d full),
      full,
    ))

abbrev pub IsFull : List ℕ → Type 0
IsFull d = length d ≡ max_data_len

HoldAll-full : (gs ds : List (List ℕ)) → HoldAll gs ds → All IsFull ds → gs ≡ ds
HoldAll-full [] [] h full = refl
HoldAll-full [] (d ∷ ds) h full = absurd h
HoldAll-full (g ∷ gs) [] h full = absurd h
HoldAll-full (g ∷ gs) (d ∷ ds) h full =
    ap₂ ◌∷◌ (Holds-full g d full.0 h.0) (HoldAll-full gs ds h.1 full.1)

raw_lem : (ps : List StreamPkt) → raw ps ≡ contents ps
unfolding raw
raw_lem [] = refl
raw_lem (p ∷ ps) = ap (λ t. p.content ∷ t) (raw_lem ps)

-- From the connection on, whatever the network does, and if the server's fresh window is zeros: the blocks
-- that the application at the other end gets are a sublist of blocks of 1316 bytes, one for each datagram
-- that was given, in that order, each beginning with what fits of its datagram.
pub raw_in_order :
    (server : Server) (receiver : Receiver) (start : List ℕ) (ds : List (List ℕ)) (buf : List ℕ)
    (w : World)
    → Connected server receiver
    → length start ≡ max_data_len
    → Run (begin server receiver) start ds buf w
    → Sublist (raw w.handed) w.given × HoldAll w.given ds
raw_in_order server receiver start ds buf w c len run =
    let (reach, fits, all) = Run-Reach run len refl in
    let (sub, up, le) = handed_in_order server receiver w c reach in
    (subst (λ xs. Sublist xs w.given) (sym (raw_lem w.handed)) sub, all)

-- Where each datagram has 1316 bytes, the blocks that the application at
-- the other end gets are a sublist of the datagrams themselves.
pub raw-full :
    (server : Server) (receiver : Receiver) (start : List ℕ) (ds : List (List ℕ)) (buf : List ℕ)
    (w : World)
    → Connected server receiver
    → length start ≡ max_data_len
    → Run (begin server receiver) start ds buf w
    → All IsFull ds
    → Sublist (raw w.handed) ds
raw-full server receiver start ds buf w c len run full =
    let (sub, all) = raw_in_order server receiver start ds buf w c len run in
    subst (Sublist (raw w.handed)) (HoldAll-full w.given ds all full) sub
