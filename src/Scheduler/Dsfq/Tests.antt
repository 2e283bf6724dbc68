-- ===== src/Scheduler/Dsfq/Tests.antt =====
-- DSFQ over whole numbers in place of doubles.
use pfssim.Base.{ℕ, ◌<◌, ◌≡◌, refl, pos, List, [], ◌∷◌, none, some, arith}
use pfssim.Scheduler.Samples.{Job, job, job_packet, whole, whole_tags}
use pfssim.Scheduler.Sfq.Tags.{IsTagged, init-IsTagged, push_wait_q-IsTagged}
use pfssim.Scheduler.Sfq
use pfssim.Scheduler.Dsfq.{Dsfq, SPacket, init, propagate_s_packet, push_wait_q_a}
use pfssim.Scheduler.Dsfq.Announce.{push_all_a, tally, announce_once}

fresh : Dsfq whole Job
unfolding init
fresh = init whole 7 (pos 3) 2 (λ i. 1)

abbrev requests : List Job
requests = job 2 1 5 ∷ job 3 0 2 ∷ []

announce_once_example :
    let (r, q') =
      propagate_s_packet whole (push_all_a whole job_packet (job 1 0 8 ∷ requests) fresh) in
    ((spkt : SPacket whole) × (r ≡ some spkt)
      × (spkt.src ≡ some 7)
      × ((i : ℕ) → spkt.lengths i ≡ tally whole job_packet i 0 (job 1 0 8 ∷ requests)))
    × ((i : ℕ) → i < 2 → q'.pending.lengths i ≡ 0)
    × ((propagate_s_packet whole q').0 ≡ none)
unfolding fresh
announce_once_example = announce_once whole job_packet (job 1 0 8) requests fresh

tally_runs : tally whole job_packet 0 0 (job 1 0 8 ∷ requests) ≡ 10
unfolding tally
tally_runs = refl

abbrev message : SPacket whole
message = record { lengths = λ i. 4; app_num = 2; src = some 3; dst = none }

fresh-IsTagged : IsTagged whole fresh.sfq
unfolding fresh
fresh-IsTagged = init-IsTagged whole whole_tags (pos 3) 2 (λ i. 1) (omega arith) (λ i h. refl)

loaded : Dsfq whole Job
loaded = push_wait_q_a whole job_packet (job 1 0 8) fresh

loaded-IsTagged : IsTagged whole loaded.sfq
unfolding loaded fresh init Sfq.init push_wait_q_a
loaded-IsTagged =
    push_wait_q-IsTagged whole whole_tags job_packet (job 1 0 8) fresh.sfq (omega arith)
      fresh-IsTagged
