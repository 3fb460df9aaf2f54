-- ===== src/Research/Leases/Tests.antt =====
-- persistence/research.py: two workers on one fingerprint, and the theorems there.
use discord_os.Prelude.{◌+◌, ◌*◌, ◌<◌, ◌≡◌, refl, ◌≢◌, true, false, some, List, [], ◌∷◌, arith}
use discord_os.Text.{Text, txt, text_beq, text_ne}
use discord_os.Text.Number.{pos}
use discord_os.Research.Leases.{
  Lease, ok, new_lease, lease_of, acquire_lease, get_lease, Call, acquire, release, perform_all,
}
use discord_os.Research.Leases.Exclusive.{end_of, acquire_lease-exclusive}

abbrev fp : Text
fp = txt "f"

abbrev worker : Text
worker = txt "w1"

abbrev others : List Call
others =
    acquire fp (txt "w2") (pos 60) 2000000
    ∷ release fp (txt "w2")
    ∷ acquire (txt "g") (txt "w2") (pos 60) 3000000
    ∷ []

other_worker : txt "w2" ≢ worker
unfolding text_beq
other_worker = text_ne (txt "w2") worker refl

granted : (acquire_lease fp worker (pos 300) 1500000 []).0 ≡ ok true
unfolding acquire_lease
granted = refl

-- The lease of 300 seconds from second 1.5 ends at second 301.
acquire_lease-exclusive_example :
    let after = perform_all others (acquire_lease fp worker (pos 300) 1500000 []).1 in
    (get_lease fp 300999999 after ≡ some (new_lease fp worker 300 1500000))
    × (acquire_lease fp (txt "w2") (pos 60) 300999999 after ≡ (ok false, after))
    × (1500000 + 300 * 1000000 < end_of 300 1500000 + 1000000)
acquire_lease-exclusive_example =
    acquire_lease-exclusive fp worker 300 1500000 [] others (txt "w2") 60 300999999 granted
      ((other_worker, omega arith), ((other_worker, tt), ((other_worker, omega arith), tt)))
      (λ e. cc) other_worker (omega arith) (omega arith)

abbrev held : List Lease
held = new_lease fp worker 300 1500000 ∷ []

held_row : lease_of fp held ≡ some (new_lease fp worker 300 1500000)
unfolding lease_of text_beq
held_row = refl
