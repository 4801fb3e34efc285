-- ===== src/Tests/Dhclient.antt =====
-- pkg/dhclient at fixed inputs.
use webboot.Prelude.{true, false, lit, [], ◌∷◌, ◌++◌, inr, some, ◌≡◌, refl}
use webboot.Exec.{ok}
use webboot.Dhclient.{
  Channel, leased, drained, send, close_channel, finish, configure_all, request, Ends,
  request-IsOver,
}

abbrev fresh : Channel
fresh = record { sent = []; closed = false }

request_runs :
    request
      (some (λ n. true))
      (lit "eth")
      (inr (lit "eth0" ∷ []))
      (λ links. leased (lit "eth0") (lit "ip") ∷ drained ∷ [])
      fresh
    ≡ (
      ok tt,
      record {
        sent =
            (lit "Configured " ++ (lit "eth0" ++ (lit " with " ++ lit "ip")))
            ∷ lit "Successful"
            ∷ lit "Configured all interfaces"
            ∷ [];
        closed = true;
      },
    )
unfolding request configure_all finish send close_channel lit
request_runs = refl

request-IsOver_example : Ends (some (λ n. true)) fresh (
    request
      (some (λ n. true))
      (lit "eth")
      (inr (lit "eth0" ∷ []))
      (λ links. leased (lit "eth0") (lit "ip") ∷ drained ∷ [])
      fresh)
request-IsOver_example =
    request-IsOver (some (λ n. true)) (lit "eth") (inr (lit "eth0" ∷ []))
      (λ links. leased (lit "eth0") (lit "ip") ∷ drained ∷ [])
