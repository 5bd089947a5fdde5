-- ===== src/FileCopy/Usage.antt =====
-- The command lines of p1/source: ncp.c and t_ncp.c, where `strtok` cuts the destination at `@` and `:`,
-- rcv.c and t_rcv.c.
use cs2520_2021spring.Common.{arith, ℕ, ◌≡◌, refl, Bool, ◌||◌, ◌==◌, List, [], ◌∷◌, ◌++◌, All}
use cs2520_2021spring.Common.Int.{pos, ℤ}
use cs2520_2021spring.Common.Text.{
  atoi-decimal, strtok-decimal, decimal, IsDigit, strtok, strtok-append, strtok-end, Plain, atoi,
  scan_int, Outcome, exits, undefined, parsed, next_token, next_int,
}

-- The characters `@` and `:`.
abbrev pub at_sign : ℕ
at_sign = 64

abbrev pub colon : ℕ
colon = 58

abbrev pub is_delim : ℕ → Bool
is_delim c = c == at_sign || c == colon

-- The three tokens of a destination.
abbrev pub tokens_of {ℓ} : {A : Type ℓ} → List ℕ → (List ℕ → List ℕ → ℤ → Outcome A) → Outcome A
tokens_of dest k = next_token undefined (strtok is_delim dest) (λ name after_name.
    next_token undefined (strtok is_delim after_name) (λ ip after_ip.
      next_token undefined (strtok is_delim after_ip) (λ port rest. k name ip (atoi port))))

pub record Arguments : Type 0 where
  pub loss_rate : ℤ
  pub source_file_name : List ℕ
  pub dest_file_name : List ℕ
  pub receiver_ip : List ℕ
  pub port : ℤ

unfoldable pub usage : List (List ℕ) → Outcome Arguments
usage (program ∷ loss ∷ env ∷ source ∷ dest ∷ []) = tokens_of dest (λ name ip number.
    parsed (record {
      loss_rate = atoi loss;
      source_file_name = source;
      dest_file_name = name;
      receiver_ip = ip;
      port = number;
    }))
usage argv = exits

-- t_ncp has neither a loss rate nor an environment.
pub record TcpArguments : Type 0 where
  pub source_file_name : List ℕ
  pub dest_file_name : List ℕ
  pub receiver_ip : List ℕ
  pub port : ℤ

unfoldable pub tcp_usage : List (List ℕ) → Outcome TcpArguments
tcp_usage (program ∷ source ∷ dest ∷ []) = tokens_of dest (λ name ip number.
    parsed (record {
      source_file_name = source;
      dest_file_name = name;
      receiver_ip = ip;
      port = number;
    }))
tcp_usage argv = exits

-- rcv
pub record ReceiverArguments : Type 0 where
  pub loss_rate : ℤ
  pub port : ℤ

unfoldable pub rcv_usage : List (List ℕ) → Outcome ReceiverArguments
rcv_usage (program ∷ loss ∷ port ∷ env ∷ []) =
    next_int (scan_int port) (λ n. parsed (record { loss_rate = atoi loss; port = n }))
rcv_usage argv = exits

-- t_rcv, with its port
unfoldable pub tcp_rcv_usage : List (List ℕ) → Outcome ℤ
tcp_rcv_usage (program ∷ port ∷ []) = next_int (scan_int port) parsed
tcp_rcv_usage argv = exits

-- `<dest_file_name>@<ip_address>:<port>`
abbrev pub destination : List ℕ → List ℕ → List ℕ → List ℕ
destination name ip port = name ++ (at_sign ∷ (ip ++ (colon ∷ port)))

-- A file name, an address and a port, none of them empty and none with a `@` or a `:`, written as the
-- message of the program asks for it, `<dest_file_name>@<ip_address>:<port>`, are read back.
pub usage-reads :
    (program loss env source : List ℕ) (n i p : ℕ) (name ip port : List ℕ)
    → All (Plain is_delim) (n ∷ name)
    → All (Plain is_delim) (i ∷ ip)
    → All (Plain is_delim) (p ∷ port)
    → usage (program ∷ loss ∷ env ∷ source ∷ destination (n ∷ name) (i ∷ ip) (p ∷ port) ∷ [])
      ≡ parsed (record {
        loss_rate = atoi loss;
        source_file_name = source;
        dest_file_name = n ∷ name;
        receiver_ip = i ∷ ip;
        port = atoi (p ∷ port);
      })
unfolding usage
usage-reads program loss env source n i p name ip port hn hi hp =
    rw
      (
        strtok-append is_delim n name ((i ∷ ip) ++ (colon ∷ (p ∷ port))) at_sign hn refl,
        strtok-append is_delim i ip (p ∷ port) colon hi refl,
        strtok-end is_delim p port hp,
      )
      refl

digit-IsPlain : (c : ℕ) → IsDigit c → Plain is_delim c
digit-IsPlain c h = ground (arith, h)

-- The same with a port in decimal, for whatever is made of the three.
pub tokens_of-destination {ℓ} :
    {A : Type ℓ} (k : List ℕ → List ℕ → ℤ → Outcome A) (n : ℕ) (name : List ℕ) (i : ℕ) (ip : List ℕ)
    (port : ℕ)
    → All (Plain is_delim) (n ∷ name)
    → All (Plain is_delim) (i ∷ ip)
    → tokens_of (destination (n ∷ name) (i ∷ ip) (decimal port)) k
      ≡ k (n ∷ name) (i ∷ ip) (pos port)
tokens_of-destination k n name i ip port hn hi =
    rw
      (
        strtok-append is_delim n name ((i ∷ ip) ++ (colon ∷ decimal port)) at_sign hn refl,
        strtok-append is_delim i ip (decimal port) colon hi refl,
        strtok-decimal is_delim port digit-IsPlain,
        atoi-decimal port,
      )
      refl
