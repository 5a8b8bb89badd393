-- ===== src/Net/Udp/Tests.antt =====
-- The UDP server at inputs.
use ssxrver.Prelude.{ℕ, ◌≡◌, refl, List, [], ◌∷◌, codes, Bool, true, false, leb, arith, some}
use ssxrver.Net.Server.{drained}
use ssxrver.Net.Udp.{
  Received, Kernel, IsKernel, efault, datagram, failed, udp_hand_read, udp_hand_read_lem,
}
use ssxrver.Net.Udp.{start}

abbrev two : List Received
two = datagram 5 (codes "ab") ∷ failed 4 ∷ datagram 6 (codes "c") ∷ failed 11 ∷ datagram 7 [] ∷ []

linux_at : Bool → Received → Received
linux_at true r = r
linux_at false (datagram peer bs) = failed efault
linux_at false (failed e) = failed e

-- A kernel that maps all but the first page.
linux : Kernel
unfolding linux_at
linux at r = linux_at (leb 4096 at) r

linux-IsKernel : IsKernel linux
unfolding linux linux_at
linux-IsKernel = record {
  mapped = λ at. leb 4096 at;
  first_page = λ at h. ground (arith, h);
  faults = λ at peer bs h. rw h refl;
  gives = λ at r h. given at r h;
  errors = λ at e. failed_at (leb 4096 at) e;
}
  where
    given : (at : ℕ) (r : Received) → leb 4096 at ≡ true → linux_at (leb 4096 at) r ≡ r
    given at (datagram peer bs) h = rw h refl
    given at (failed e) h = rw h refl

    failed_at : (b : Bool) (e : ℕ) → linux_at b (failed e) ≡ failed e
    failed_at true e = refl
    failed_at false e = refl

udp_hand_read_lem_example : udp_hand_read linux [] two ≡ drained []
udp_hand_read_lem_example = udp_hand_read_lem linux two linux-IsKernel refl

start_test :
    start true (record { started = false; reading = false })
    ≡ some (record { started = true; reading = true })
unfolding start
start_test = refl
