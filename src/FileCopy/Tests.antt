-- ===== src/FileCopy/Tests.antt =====
-- Runs of p1/source/rcv.c and p1/source/ncp.c on small inputs.
use cs2520_2021spring.Common.{
  ◌/◌, length, ◌==◌, if◌then◌else◌, ◌≢◌, ap, suc, ◌∙◌, sym, ℕ, ◌+◌, ◌<◌, ◌*◌, ◌≡◌, refl, subst,
  true, Option, none, some, List, [], ◌∷◌, ◌++◌, arith, replicate, drop,
}
use cs2520_2021spring.Common.Int.{pos-add, ◌+ℤ◌, pos_part, ◌-ℤ◌, ℤ, pos, negsuc}
use cs2520_2021spring.Common.Bytes.{bzero, cstr, overwrite}
use cs2520_2021spring.Timeval.{million, timersub, Timeval, zero_time}
use cs2520_2021spring.Common.Text.{decimal}
use cs2520_2021spring.Common.Hosts.{from_usage, any}
use cs2520_2021spring.FileCopy.Hosts.{rcv_name, tcp_name, send_addr, tcp_host, hosts_lem}
use cs2520_2021spring.FileCopy.Usage.{usage, tcp_usage, rcv_usage, tcp_rcv_usage, destination}
use cs2520_2021spring.FileCopy.Tcp.Report.{report, report_lem}
use cs2520_2021spring.FileCopy.Message.{Header, Message, Datagram, Addr, tmb, chunk_len}
use cs2520_2021spring.FileCopy.Receiver.{
  lossy, direct, fill_nacks, may_request, store_early, request_missing, buffer_early, take_buffered,
  drain, account, acknowledge, deliver_and_drain, deliver_alone, start_session, Out, on_arrival,
  Receiver, Round, init, round, run, receive, decline, arrive, check_timer, timer_due, on_data,
  write_current, nack_request,
}
use cs2520_2021spring.FileCopy.Receiver.Delivery.{chunks, Is, Conforms, AllConform, run_delivers}
use cs2520_2021spring.FileCopy.Receiver.Replies.{
  ask, nack_request_lem, timer_due-on_data, request_after_intruder, write_current-stale,
}
use cs2520_2021spring.FileCopy.Tcp
use cs2520_2021spring.FileCopy.Tcp.{send_file_lem, receive_all, concat}

abbrev header : ℤ → Header
header n = record { cack = pos 0; nack = []; seq = n }

abbrev old_text : Message
old_text = record { hdr = header (pos 0); text = 120 ∷ 121 ∷ 122 ∷ 0 ∷ [] }

abbrev peer : Addr
peer = record { ip = 7; port = 10120 }

abbrev intruder : Addr
intruder = record { ip = 8; port = 10120 }

abbrev late : Timeval
late = record { sec = pos 5; usec = pos 0 }

abbrev slots : List Message
slots = replicate 100 (record { hdr = header (pos 0); text = [] })

abbrev boot : Receiver
boot = init old_text (header (pos 0)) slots

abbrev packet : ℤ → List ℕ → Datagram
packet n text = record { hdr = header n; payload = text }

abbrev round_of : Datagram → Round
round_of d = record { now = zero_time; sent = zero_time; opened = true; arrival = some (peer, d) }

abbrev name : Datagram
name = packet (pos 0) (110 ∷ 0 ∷ [])

abbrev second : Datagram
second = packet (pos 2) (98 ∷ 0 ∷ [])

abbrev first : Datagram
first = packet (pos 1) (97 ∷ 0 ∷ [])

-- The name, then the packet 2 before the packet 1.
abbrev rounds : List Round
rounds = round_of name ∷ round_of second ∷ round_of first ∷ []

abbrev chunk_of : ℕ → List ℕ
chunk_of n = (96 + n) ∷ []

abbrev state_of : Option (Receiver × List Out) → Receiver
state_of none = boot
state_of (some (r, out)) = r

abbrev sent_by : Option (Receiver × List Out) → List Out
sent_by none = []
sent_by (some (r, out)) = out

run-some : run rounds boot ≡ some (state_of (run rounds boot), sent_by (run rounds boot))
unfolding run round check_timer timer_due on_arrival receive start_session on_data deliver_alone
    deliver_and_drain acknowledge account write_current drain take_buffered buffer_early
    request_missing store_early may_request nack_request fill_nacks init timersub ◌-ℤ◌ cstr
    overwrite bzero
run-some = refl

same_step :
    (e : Round) (es : List Round) (r t : Receiver) (out : List Out)
    → Conforms (Is chunk_of) r e.arrival
    → round e r ≡ some (t, out)
    → AllConform (Is chunk_of) es t
    → AllConform (Is chunk_of) (e ∷ es) r
same_step e es r t out c p rest =
    (c, λ u more q. subst (λ x. AllConform (Is chunk_of) es (state_of x)) (sym p ∙ q) rest)

-- A packet conforms if its own number is in the window and its own text is right.
conform :
    (r : Receiver) (from : Addr) (d : Datagram) (k : ℕ)
    → d.hdr.seq ≡ pos (suc k)
    → k < r.c_ack + 100
    → cstr (overwrite r.mess.text d.payload) ≡ chunk_of (suc k)
    → Conforms (Is chunk_of) r (some (from, d))
conform r from d k p lo body same n e =
    subst (λ m. (m < r.c_ack + 100) × (cstr (overwrite r.mess.text d.payload) ≡ chunk_of (suc m)))
      (omega (arith, ap pos_part (sym p ∙ e))) (lo, body)

abbrev r1 : Receiver
r1 = state_of (round (round_of name) boot)

abbrev r2 : Receiver
r2 = state_of (round (round_of second) r1)

abbrev r3 : Receiver
r3 = state_of (round (round_of first) r2)

rounds-AllConform : AllConform (Is chunk_of) rounds boot
unfolding run round check_timer timer_due on_arrival receive start_session on_data deliver_alone
    deliver_and_drain acknowledge account write_current drain take_buffered buffer_early
    request_missing store_early may_request nack_request fill_nacks init timersub ◌-ℤ◌ cstr
    overwrite bzero
rounds-AllConform =
    same_step (round_of name) (round_of second ∷ round_of first ∷ []) boot r1
      (sent_by (round (round_of name) boot)) (λ same n e. absurd (ground arith)) refl
      (same_step (round_of second) (round_of first ∷ []) r1 r2
        (sent_by (round (round_of second) r1)) (conform r1 peer second 1 refl (omega arith) refl)
        refl
        (same_step (round_of first) [] r2 r3 (sent_by (round (round_of first) r2))
          (conform r2 peer first 0 refl (omega arith) refl) refl tt))

run_delivers_example :
    let t = state_of (run rounds boot) in
    (t.file ≡ chunks chunk_of t.c_ack) × (t.totalbytes + tmb * t.i_tmb ≡ chunk_len * t.c_ack)
run_delivers_example =
    run_delivers chunk_of old_text (header (pos 0)) slots refl rounds (state_of (run rounds boot))
      (sent_by (run rounds boot)) rounds-AllConform run-some

-- The file of this run.
file_example : (state_of (run rounds boot)).file ≡ 97 ∷ 98 ∷ []
unfolding run round check_timer timer_due on_arrival receive start_session on_data deliver_alone
    deliver_and_drain acknowledge account write_current drain take_buffered buffer_early
    request_missing store_early may_request nack_request fill_nacks init timersub ◌-ℤ◌ cstr
    overwrite bzero
file_example = refl

nack_request_lem_example :
    (nack_request 4 boot).nack ≡ pos (boot.c_ack + 1) ∷ ask 1 4 boot ∷ ask 2 4 boot ∷ []
nack_request_lem_example = nack_request_lem 4 boot

abbrev busy : Receiver
busy = record boot { has_sender = true; current = peer; from_addr = peer }

timer_due-on_data_example : timer_due late (on_data busy).0 ≡ true
timer_due-on_data_example = timer_due-on_data late busy refl (omega arith)

abbrev hello : Datagram
hello = packet (pos 1) (97 ∷ [])

intruder_due : timer_due late (decline intruder (arrive intruder hello busy)).0 ≡ true
unfolding timer_due decline timersub ◌-ℤ◌ init
intruder_due = refl

request_after_intruder_example :
    let t = decline intruder (arrive intruder hello busy) in
    let request = check_timer late late t.0 in
    (receive true intruder hello busy ≡ some t)
    × (t.1 ≡ direct intruder (record busy.echo { cack = negsuc 0 }) ∷ [])
    × (t.0 ≡ record busy {
      from_addr = intruder;
      mess = record { hdr = hello.hdr; text = overwrite busy.mess.text hello.payload };
      echo = record busy.echo { cack = negsuc 0 };
    })
    × (request.1 ≡ lossy intruder request.0.echo ∷ [])
    × (request.0.echo.cack ≡ pos busy.c_ack)
    × (request.0 ≡ record t.0 { echo = request.0.echo; ack_timeout = late })
request_after_intruder_example =
    request_after_intruder true intruder hello late late busy refl refl intruder_due

write_current-stale_example :
    (write_current (arrive peer hello busy)).file
    ≡ busy.file ++ (hello.payload ++ cstr (drop 1 busy.mess.text))
unfolding init
write_current-stale_example =
    write_current-stale peer hello busy (λ e. absurd (omega (arith, e)), tt) (omega arith)

abbrev eight : List ℕ
eight = 110 ∷ 0 ∷ 0 ∷ 0 ∷ 0 ∷ 0 ∷ 0 ∷ 0 ∷ []

not_empty : (x : ℕ) (xs : List ℕ) → x ∷ xs ≢ []
not_empty x xs e = cc

abbrev found_at : List ℕ → Option ℕ
found_at host = some (length host)

-- `a@1.:2000`
hosts_lem_example :
    let dest = destination (97 ∷ []) (49 ∷ 46 ∷ []) (decimal 2000) in
    let ncp =
      from_usage (usage ([] ∷ decimal 5 ∷ [] ∷ (115 ∷ []) ∷ dest ∷ [])) (send_addr found_at) in
    let rcv =
      from_usage (rcv_usage ([] ∷ decimal 5 ∷ decimal 2000 ∷ [] ∷ [])) (λ a. some (rcv_name a)) in
    let t_ncp = from_usage (tcp_usage ([] ∷ (115 ∷ []) ∷ dest ∷ [])) (tcp_host found_at) in
    let t_rcv = from_usage (tcp_rcv_usage ([] ∷ decimal 2000 ∷ [])) (λ p. some (tcp_name p)) in
    (ncp ≡ some (record { ip = 2; port = 2000 }))
    × (rcv ≡ some (record { ip = any; port = 2000 }))
    × (t_ncp ≡ some (record { ip = 2; port = 2000 }))
    × (t_rcv ≡ some (record { ip = any; port = 2000 }))
hosts_lem_example =
    hosts_lem found_at [] [] (115 ∷ []) 5 97 [] 49 (46 ∷ []) 2000 2 (refl, tt) (refl, (refl, tt))
      refl (omega arith)

-- The whole copy within one second of the clock.
abbrev same_second : Timeval
same_second = record { sec = pos 4; usec = pos 0 }

report_lem_example :
    report
      (receive_all (eight ∷ (((97 ∷ []) ∷ []) ++ [] ∷ [])) Tcp.boot).bytes_read
      same_second
      same_second
    ≡ (if 0 == 0
        then none
        else some (record {
          megb = pos (length (concat ((97 ∷ []) ∷ [])) / million);
          sec = pos 0;
          transmit_rate = pos (length (concat ((97 ∷ []) ∷ [])) / million / 0);
        }))
report_lem_example =
    report_lem eight ((97 ∷ []) ∷ []) same_second same_second 0 (not_empty 97 [], tt) (omega arith)
      (omega arith) same_plus_zero
  where
    same_plus_zero : pos 4 ≡ pos 4 +ℤ pos 0
    same_plus_zero = sym (pos-add 4 0)
