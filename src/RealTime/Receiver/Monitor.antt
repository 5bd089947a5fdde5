-- ===== src/RealTime/Receiver/Monitor.antt =====
-- p2/source/rt_rcv.c: the delays that its main loop keeps, and its reports. The clocks are arguments, and
-- the `double` variables hold at first what the stack held.
use cs2520_2021spring.Common.{
  Bool, ℕ, ◌+◌, ◌*◌, ◌<◌, ◌≡◌, refl, sym, subst, arith, false, ◌&&◌, ◌||◌, ◌==◌, if◌then◌else◌,
  Option, none, some, List, [], ◌∷◌, All,
}
use cs2520_2021spring.Common.Int.{wrap, ℤ, pos, ◌+ℤ◌, ◌-ℤ◌, ◌*ℤ◌, ◌==ℤ◌}
use cs2520_2021spring.Common.Double.{Double, IsOrdered}
use cs2520_2021spring.Timeval.{Timeval, timeradd, timersub, million}
use cs2520_2021spring.RealTime.Packet.{Package}
use cs2520_2021spring.RealTime.Delay.{
  oneway, larger, smaller, IsGreatest, IsLeast, larger-first, smaller-first, larger-IsGreatest,
  smaller-IsLeast, larger-cases, smaller-cases,
}
use cs2520_2021spring.RealTime.Receiver.{Receiver, Clocks, has_room, in_time}
use cs2520_2021spring.RealTime.Receiver.Loss.{loss}

pub record Monitor {ℓ} (W : Type ℓ) : Type ℓ where
  pub start_ts : Timeval
  pub next_report_time : Timeval
  pub max_oneway : W
  pub min_oneway : W
  pub avg_oneway : W

pub record Report {ℓ} (W : Type ℓ) : Type ℓ where
  pub elapsed : W
  pub megabytes : W
  pub rcvd_count : ℕ
  pub rate : W
  pub packet_rate : W
  pub highestseq : ℤ
  pub c_ack : ℕ
  pub loss : ℤ
  pub lossrate : W
  pub max_oneway : W
  pub min_oneway : W
  pub avg_oneway : W

abbrev report_interval : Timeval
report_interval = record { sec = pos 5; usec = pos 0 }

-- The two tests before a packet is stored, behind that of its kind.
unfoldable pub takes : Clocks → Package → Receiver → Bool
takes c p r = (p.kind ==ℤ pos 0 || p.kind ==ℤ pos 6) && (has_room p r && in_time c.checked p r)

module _ {ℓ} {W : Type ℓ} ⦃d : Double W⦄ where
  -- How long `select` waits; `none` is `NULL`.
  unfoldable pub timeout : Timeval → Receiver → Monitor W → Option Timeval
  timeout now r m = if r.rcvd_count == 0 then none else some (timersub m.next_report_time now)

  -- A delay, with the count before its packet is counted.
  unfoldable pub note : W → ℕ → Monitor W → Monitor W
  note x n m = record m {
    max_oneway = larger (n == 1) x m.max_oneway;
    min_oneway = smaller (n == 1) x m.min_oneway;
    avg_oneway = d.div (d.add (d.mul m.avg_oneway (d.of_int (pos n))) x) (d.of_int (pos (n + 1)));
  }

  -- A data packet that is accepted: the first one starts the time, and the delay is that of its last
  -- transmission.
  unfoldable pub on_accepted : Timeval → Timeval → Package → ℕ → Monitor W → Monitor W
  on_accepted started now p n m =
      let first = p.kind ==ℤ pos 0 in
      let starts = first && n == 0 in
      note (oneway now (if first then p.send_ts else p.n_send_ts)) n (record m {
        start_ts = if starts then started else m.start_ts;
        next_report_time = if starts then timeradd started report_interval else m.next_report_time;
      })

  unfoldable pub watch : Timeval → Clocks → Package → Receiver → Monitor W → Monitor W
  watch started c p r m = if takes c p r then on_accepted started c.now p r.rcvd_count m else m

  unfoldable pub report : Timeval → Receiver → Monitor W → Report W
  report now r m =
      let duration =
        d.of_int ((now.sec -ℤ m.start_ts.sec) *ℤ pos million +ℤ (now.usec -ℤ m.start_ts.usec)) in
      record {
        elapsed = d.div duration (d.of_int (pos million));
        megabytes = d.div (d.of_int (wrap (pos (r.rcvd_count * 1350)))) (d.of_int (pos million));
        rcvd_count = r.rcvd_count;
        rate = d.div (d.of_int (wrap (pos (1350 * r.rcvd_count * 8)))) duration;
        packet_rate = d.div (d.mul (d.of_int (pos r.rcvd_count)) (d.of_int (pos million))) duration;
        highestseq = r.highestseq;
        c_ack = r.c_ack;
        loss = loss r;
        lossrate =
            d.div (d.mul (d.mul (d.of_int (pos 1)) (d.of_int (pos 100))) (d.of_int (loss r)))
              (d.of_int (pos r.c_ack));
        max_oneway = m.max_oneway;
        min_oneway = m.min_oneway;
        avg_oneway = m.avg_oneway;
      }

  unfoldable pub on_silence : Monitor W → Monitor W
  on_silence m = record m { next_report_time = timeradd m.next_report_time report_interval }

  -- The delays of packets that are accepted one after the other, `n` before them.
  unfoldable pub notes : List W → ℕ → Monitor W → Monitor W
  notes [] n m = m
  notes (x ∷ xs) n m = notes xs (n + 1) (note x n m)

  abbrev Tracks : List W → Monitor W → Type ℓ
  Tracks xs m = IsGreatest m.max_oneway xs × IsLeast m.min_oneway xs

  -- The second delay takes the place of what there was.
  note-second :
      (x : W) (m : Monitor W) → ((note x 1 m).max_oneway ≡ x) × ((note x 1 m).min_oneway ≡ x)
  unfolding note
  note-second x m = (larger-first x m.max_oneway, smaller-first x m.min_oneway)

  abbrev pub rev_onto : List W → List W → List W
  rev_onto [] acc = acc
  rev_onto (x ∷ xs) acc = rev_onto xs (x ∷ acc)

  module _ {IsNumber : W → Type 0} (o : IsOrdered W IsNumber) where
    note-Tracks :
        (x : W) (n : ℕ) (xs : List W) (m : Monitor W)
        → 1 < n
        → IsNumber x
        → IsNumber m.max_oneway × IsNumber m.min_oneway
        → Tracks xs m
        → (IsNumber (note x n m).max_oneway × IsNumber (note x n m).min_oneway)
          × Tracks (x ∷ xs) (note x n m)
    unfolding note
    note-Tracks x n xs m later number (hmax, hmin) (top, low) =
        subst
          (λ b.
            (IsNumber (larger b x m.max_oneway) × IsNumber (smaller b x m.min_oneway))
            × (IsGreatest (larger b x m.max_oneway) (x ∷ xs)
                × IsLeast (smaller b x m.min_oneway) (x ∷ xs)))
          (sym (not_one n later))
          (
            (
              larger-cases false x m.max_oneway IsNumber number hmax,
              smaller-cases false x m.min_oneway IsNumber number hmin,
            ),
            (
              larger-IsGreatest o x m.max_oneway xs hmax top,
              smaller-IsLeast o x m.min_oneway xs hmin low,
            ),
          )
      where
        not_one : (n : ℕ) → 1 < n → (n == 1) ≡ false
        not_one n h = ground (arith, h)

    notes-Tracks :
        (ys xs : List W) (n : ℕ) (m : Monitor W)
        → 1 < n
        → All IsNumber ys
        → IsNumber m.max_oneway × IsNumber m.min_oneway
        → Tracks xs m
        → Tracks (rev_onto ys xs) (notes ys n m)
    unfolding notes
    notes-Tracks [] xs n m later numbers h t = t
    notes-Tracks (y ∷ ys) xs n m later numbers h t =
        let (h2, t2) = note-Tracks y n xs m later numbers.0 h t in
        notes-Tracks ys (y ∷ xs) (n + 1) (note y n m) (omega arith) numbers.1 h2 t2

    -- From the second accepted packet on, the greatest and the least delay are those of all packets but the
    -- first, whose delay is forgotten, as is what the variables held before. The delays are numbers, on
    -- which the comparison is an order; the list of those that count has the last one first.
    pub notes_lem :
        (x y : W) (ys : List W) (m : Monitor W)
        → IsNumber y
        → All IsNumber ys
        → let t = notes (x ∷ y ∷ ys) 0 m in
          IsGreatest t.max_oneway (rev_onto ys (y ∷ []))
          × IsLeast t.min_oneway (rev_onto ys (y ∷ []))
    unfolding notes
    notes_lem x y ys m number numbers =
        let s = note x 0 m in
        let (big, small) = note-second y s in
        notes-Tracks ys (y ∷ []) 2 (note y 1 s) (omega arith) numbers
          (subst IsNumber (sym big) number, subst IsNumber (sym small) number)
          (
            subst (λ z. IsGreatest z (y ∷ [])) (sym big) ((o.lt_irrefl y, tt), ([], [], refl)),
            subst (λ z. IsLeast z (y ∷ [])) (sym small) ((o.lt_irrefl y, tt), ([], [], refl)),
          )
