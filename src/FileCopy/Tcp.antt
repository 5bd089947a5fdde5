-- ===== src/FileCopy/Tcp.antt =====
-- p1/source/t_ncp.c and p1/source/t_rcv.c: the file copy over TCP. `read` on the source file, a regular
-- file, returns full blocks up to the end; `send` takes all that it is given. What the calls of `recv`
-- return is an argument: `[]` is the end of the connection, and the list ends where `recv` waits.
pub mod Report
use cs2520_2021spring.Common.{
  ℕ, zero, suc, ◌+◌, ◌≤◌, ◌<◌, ◌≡◌, ◌≢◌, refl, ap, Bool, true, false, Option, none, some, List, [],
  ◌∷◌, ◌++◌, length, take, drop, arith,
}
use cs2520_2021spring.Common.Int.{ℤ, pos, ◌+ℤ◌, wrap}
use cs2520_2021spring.Common.Bytes.{cstr}
use cs2520_2021spring.FileCopy.Message.{max_mess_len}

-- The bytes that `send` is given for the name: `sizeof` of a pointer, whatever stands behind the name.
abbrev pub name_len : ℕ
name_len = 8

-- The blocks of the file, up to a `read` that returns 0; the fuel is the number of reads.
unfoldable pub send_file : ℕ → List ℕ → Option (List ℕ)
send_file zero source = none
send_file (suc fuel) source =
    next (take max_mess_len source) (send_file fuel (drop max_mess_len source))
  where
    next : List ℕ → Option (List ℕ) → Option (List ℕ)
    next [] rest = some []
    next (b ∷ block) none = none
    next (b ∷ block) (some bytes) = some ((b ∷ block) ++ bytes)

unfoldable pub send_all : ℕ → List ℕ → List ℕ → Option (List ℕ)
send_all fuel name source = with_name (send_file fuel source)
  where
    with_name : Option (List ℕ) → Option (List ℕ)
    with_name none = none
    with_name (some bytes) = some (take name_len name ++ bytes)

pub record Receiver : Type 0 where
  pub is_name : Bool
  pub file_name : List ℕ
  pub file : List ℕ
  pub bytes_read : ℤ
  pub closed : Bool

unfoldable pub boot : Receiver
boot = record { is_name = true; file_name = []; file = []; bytes_read = pos 0; closed = false }

-- One round of `while(1)` with what `recv` returned.
unfoldable pub receive : List ℕ → Receiver → Receiver
receive bytes r = by_name r.is_name bytes
  where
    by_name : Bool → List ℕ → Receiver
    by_name true bytes = record r { file_name = cstr bytes; is_name = false }
    by_name false [] = record r { closed = true }
    by_name false (b ∷ bytes) = record r {
      bytes_read = wrap (r.bytes_read +ℤ pos (length (b ∷ bytes)));
      file = r.file ++ (b ∷ bytes);
    }

unfoldable pub receive_all : List (List ℕ) → Receiver → Receiver
receive_all [] r = r
receive_all (c ∷ cs) r = elim r.closed [ true ↦ r | false ↦ receive_all cs (receive c r) ]

abbrev pub concat : List (List ℕ) → List ℕ
concat [] = []
concat (c ∷ cs) = c ++ concat cs

abbrev pub NonEmpty : List ℕ → Type 0
NonEmpty c = c ≢ []

take_append_drop : (n : ℕ) (xs : List ℕ) → take n xs ++ drop n xs ≡ xs
take_append_drop zero xs = refl
take_append_drop (suc n) [] = refl
take_append_drop (suc n) (x ∷ xs) = ap (λ t. x ∷ t) (take_append_drop n xs)

length-drop-le : (n : ℕ) (xs : List ℕ) → length (drop n xs) ≤ length xs
length-drop-le zero xs = omega arith
length-drop-le (suc n) [] = omega arith
length-drop-le (suc n) (x ∷ xs) = omega (arith, length-drop-le n xs)

-- One more read than the file has bytes is always enough: all of the file is sent, and the loop ends.
pub send_file_lem :
    (fuel : ℕ) (source : List ℕ) → length source < fuel → send_file fuel source ≡ some source
unfolding send_file
send_file_lem zero source h = absurd (omega arith)
send_file_lem (suc fuel) [] h = refl
send_file_lem (suc fuel) (x ∷ xs) h =
    rw (send_file_lem fuel (drop 1399 xs) (omega (arith, length-drop-le 1399 xs)))
      (ap (λ t. some (x ∷ t)) (take_append_drop 1399 xs))

-- The receiver behind the name.
abbrev pub named : List ℕ → List ℕ → ℤ → Receiver
named file_name file n = record {
  is_name = false;
  file_name = file_name;
  file = file;
  bytes_read = n;
  closed = false;
}
