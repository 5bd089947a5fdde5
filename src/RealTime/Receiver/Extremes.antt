-- ===== src/RealTime/Receiver/Extremes.antt =====
-- p2/source/rt_rcv.c: what its reports print as the greatest and the least delay.
use cs2520_2021spring.Common.{
  ap₂, ℕ, ◌+◌, ◌≡◌, refl, sym, ap, ◌∙◌, subst, arith, some, List, [], ◌∷◌, length, All,
}
use cs2520_2021spring.Common.Double.{Double, IsOrdered}
use cs2520_2021spring.Timeval.{Timeval}
use cs2520_2021spring.RealTime.Packet.{Package}
use cs2520_2021spring.RealTime.Delay.{IsGreatest, IsLeast}
use cs2520_2021spring.RealTime.Receiver.{Receiver, init, size_of}
use cs2520_2021spring.RealTime.Receiver.Accept.{init-Inv}
use cs2520_2021spring.RealTime.Receiver.Monitor.{Monitor, notes, rev_onto, notes_lem}
use cs2520_2021spring.RealTime.Receiver.Watched.{Brings, loop, accepted, loop-Comes}

init-count :
    (ms : ℕ) (window : List Package) (echo : Package) → (init ms window echo).rcvd_count ≡ 0
unfolding init
init-count ms window echo = refl

module _ {ℓ} {W : Type ℓ} ⦃d : Double W⦄ {IsNumber : W → Type 0} (o : IsOrdered W IsNumber) where
  -- From the start, with a window array of the right size, whatever arrives: the main loop goes on, and once
  -- two packets are accepted, whose delays but the first are numbers on which the comparison is an order, the
  -- count is that of the packets accepted, and the greatest and the least delay are those of all of them but
  -- the first, whose delay is forgotten. The list of those that count has the last one first.
  pub loop_lem :
      (ms : ℕ) (window : List Package) (echo : Package) (m : Monitor W)
      (es : List (Timeval × Brings)) (x y : W) (ys : List W)
      → length window ≡ size_of ms
      → accepted es (init ms window echo) ≡ x ∷ y ∷ ys
      → IsNumber y
      → All IsNumber ys
      → (t : Receiver × Monitor W) × (loop es (init ms window echo) m ≡ some t)
        × (t.0.rcvd_count ≡ 2 + length ys)
        × IsGreatest t.1.max_oneway (rev_onto ys (y ∷ []))
        × IsLeast t.1.min_oneway (rev_onto ys (y ∷ []))
  loop_lem ms window echo m es x y ys h these number numbers =
      let (t, e, counted, same) =
        loop-Comes es (init ms window echo) m (init-Inv ms window echo h) in
      let fresh : (init ms window echo).rcvd_count ≡ 0 = init-count ms window echo in
      let same_notes : notes (accepted es (init ms window echo)) (init ms window echo).rcvd_count m
          ≡ notes (x ∷ y ∷ ys) 0 m =
        ap₂ (λ xs n. notes xs n m) these fresh in
      let (top, low) = notes_lem o x y ys m number numbers in
      (
        t,
        e,
        omega (arith, counted, fresh, ap length these),
        subst (λ z. IsGreatest z (rev_onto ys (y ∷ [])))
            (sym (same.0 ∙ ap (λ k. k.max_oneway) same_notes)) top,
        subst (λ z. IsLeast z (rev_onto ys (y ∷ [])))
            (sym (same.1 ∙ ap (λ k. k.min_oneway) same_notes)) low,
      )
