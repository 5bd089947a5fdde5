-- ===== src/FileCopy/Tcp/Report.antt =====
-- p1/source/t_rcv.c: what is printed at the end of the connection. `last` is the time of the last `select`,
-- before the first `recv`; the clocks are arguments. The count and the seconds are `int`s, with their
-- wrap-around.
use cs2520_2021spring.Common.{
  length-append, ℕ, zero, suc, ◌+◌, ◌/◌, ◌==◌, ◌≡◌, ◌<◌, refl, ap, ◌∙◌, if◌then◌else◌, Option, none,
  some, List, [], ◌∷◌, ◌++◌, length, All, arith,
}
use cs2520_2021spring.Common.Int.{wrap, int_bound, ℤ, pos, negsuc, ◌+ℤ◌, ◌-ℤ◌, ◌/ℤ◌, pos-div}
use cs2520_2021spring.Timeval.{Timeval, million}
use cs2520_2021spring.FileCopy.Tcp.{named, cstr, boot, receive, receive_all, concat, NonEmpty}

pub record Report : Type 0 where
  pub megb : ℤ
  pub sec : ℤ
  pub transmit_rate : ℤ

-- C's quotient of two `int`s; `none` is the signal of a division by 0.
abbrev divide : ℤ → ℤ → Option ℤ
divide a (pos zero) = none
divide a (pos (suc n)) = some (a /ℤ suc n)
divide a (negsuc n) = some (pos 0 -ℤ a /ℤ suc n)

abbrev rated : ℤ → ℤ → Option ℤ → Option Report
rated megb sec none = none
rated megb sec (some rate) = some (record { megb = megb; sec = sec; transmit_rate = rate })

unfoldable pub report : ℤ → Timeval → Timeval → Option Report
report bytes_read last now =
    let megb = bytes_read /ℤ million in
    let sec = wrap (now.sec -ℤ last.sec) in rated megb sec (divide megb sec)

add_small : (n k : ℕ) → n + k < int_bound → wrap (pos n +ℤ pos k) ≡ pos (n + k)
unfolding wrap ◌+ℤ◌
add_small n k h = ground arith

bytes-blocks :
    (cs : List (List ℕ)) (name file : List ℕ) (n : ℕ)
    → All NonEmpty cs
    → n + length (concat cs) < int_bound
    → (receive_all (cs ++ [] ∷ []) (named name file (pos n))).bytes_read
      ≡ pos (n + length (concat cs))
unfolding receive_all receive
bytes-blocks [] name file n full fits = ap pos (omega arith)
bytes-blocks ([] ∷ cs) name file n full fits = absurd (full.0 refl)
bytes-blocks ((b ∷ c) ∷ cs) name file n full fits =
    let len = length-append (b ∷ c) (concat cs) in
    rw (add_small n (length (b ∷ c)) (omega (arith, fits, len))) (
      bytes-blocks cs name (file ++ (b ∷ c)) (n + length (b ∷ c)) full.1 (omega (arith, fits, len))
      ∙ ap pos (omega (arith, len)))

seconds : (a b : ℤ) (n : ℕ) → n < int_bound → b ≡ a +ℤ pos n → wrap (b -ℤ a) ≡ pos n
unfolding wrap ◌-ℤ◌ ◌+ℤ◌
seconds a b n h e = let same : b -ℤ a ≡ pos n = rw e (ground arith) in rw same (ground (arith, h))

report-after :
    (bytes n : ℕ) (last now : Timeval)
    → n < int_bound
    → now.sec ≡ last.sec +ℤ pos n
    → let m = bytes / million in
      report (pos bytes) last now ≡ (
        if n == 0
        then none
        else some (record { megb = pos m; sec = pos n; transmit_rate = pos (m / n) }))
unfolding report
report-after bytes zero last now h e = rw (seconds last.sec now.sec zero h e) refl
report-after bytes (suc n) last now h e =
    rw
      (
        seconds last.sec now.sec (suc n) h e,
        pos-div bytes million,
        pos-div (bytes / million) (suc n),
      )
      (ground arith)

-- For less than 2^31 bytes, and less than 2^31 seconds: a copy that ends in the clock second that it began
-- in ends with a division by 0 in place of the report; one that takes `n` such seconds, with `n` above 0,
-- prints the megabytes received and their quotient by `n`.
pub report_lem :
    (c : List ℕ) (cs : List (List ℕ)) (last now : Timeval) (n : ℕ)
    → All NonEmpty cs
    → length (concat cs) < int_bound
    → n < int_bound
    → now.sec ≡ last.sec +ℤ pos n
    → let m = length (concat cs) / million in
      report (receive_all (c ∷ (cs ++ [] ∷ [])) boot).bytes_read last now ≡ (
        if n == 0
        then none
        else some (record { megb = pos m; sec = pos n; transmit_rate = pos (m / n) }))
unfolding receive_all receive boot
report_lem c cs last now n full fits short e =
    ap (λ b. report b last now)
      (bytes-blocks cs (cstr c) [] 0 full (omega (arith, fits)) ∙ ap pos (omega arith))
    ∙ report-after (length (concat cs)) n last now short e
