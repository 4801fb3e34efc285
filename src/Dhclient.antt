-- ===== src/Dhclient.antt =====
-- pkg/dhclient/dhclient.go. The DHCP client of u-root, the list of links and the regular expression
-- are parameters. What comes on its two channels is a list; past its end the select waits for ever.
use webboot.Prelude.{
  Bool, true, false, Str, lit, List, [], ◌∷◌, ◌++◌, Option, none, some, ◌⊎◌, inl, inr,
  if◌then◌else◌, ◌≡◌, refl,
}
use webboot.Exec.{Res, ok, err, blocked, panicked, exited, Exec, ◌>>=◌}

-- The channel `cl`: the messages sent, and whether it is closed.
pub record Channel : Type 0 where
  pub sent : List Str
  pub closed : Bool

-- What the select comes to: the context ends, a result for an interface, or the end of the results.
-- A result is an error of the request, an error of the configuration, or a lease.
pub data Input : Type 0 where
  timed_out : Str → Input
  failed unconfigured leased : (name text : Str) → Input
  drained : Input

-- `cl <- m`; a closed channel panics.
unfoldable pub send : Str → Exec Channel (Unit {0})
send m c = if c.closed then (panicked, c) else (ok tt, record c { sent = c.sent ++ m ∷ [] })

-- `close(cl)`; so does closing it again.
unfoldable pub close_channel : Exec Channel (Unit {0})
close_channel c = if c.closed then (panicked, c) else (ok tt, record c { closed = true })

could_not : Str → Str → Str
could_not name text = lit "Could not configure " ++ (name ++ (lit ": " ++ text))

-- The last message, and the deferred close.
unfoldable pub finish : Str → Exec Channel (Unit {0})
unfolding send close_channel
finish m = send m >>= λ _. close_channel

-- The loop of `configureAll`.
unfoldable pub configure_all : List Input → Exec Channel (Unit {0})
unfolding send finish could_not
configure_all [] = λ c. (blocked, c)
configure_all (timed_out e ∷ is) = finish (lit "Done with dhclient: " ++ e)
configure_all (drained ∷ is) = finish (lit "Configured all interfaces")
configure_all (failed name text ∷ is) = send (could_not name text) >>= λ _. configure_all is
configure_all (unconfigured name text ∷ is) = send (could_not name text) >>= λ _. configure_all is
configure_all (leased name text ∷ is) =
    send (lit "Configured " ++ (name ++ (lit " with " ++ text))) >>= λ _.
    send (lit "Successful") >>= λ _. configure_all is

abbrev pub matching : (Str → Bool) → List Str → List Str
matching matches [] = []
matching matches (n ∷ ns) = let rest = matching matches ns in if matches n then n ∷ rest else rest

abbrev start : Str → (List Str → List Input) → List Str → Exec Channel (Unit {0})
start name requests [] = finish (lit "No interfaces match " ++ name)
start name requests (n ∷ ns) = configure_all (requests (n ∷ ns))

abbrev with_links :
    (Str → Bool) → Str → Str ⊎ List Str → (List Str → List Input) → Exec Channel (Unit {0})
with_links matches name (inl e) requests = finish (lit "Can't get list of link names: " ++ e)
with_links matches name (inr links) requests = start name requests (matching matches links)

-- `Request`, for the compiled expression, if `MustCompilePOSIX` does not panic, the links or the
-- text of an error, and what the requests for some links lead to.
unfoldable pub request :
    Option (Str → Bool) → Str → Str ⊎ List Str → (List Str → List Input) → Exec Channel (Unit {0})
unfolding finish configure_all
request none name links requests = λ c. (panicked, c)
request (some matches) name links requests = with_links matches name links requests

-- The channel is closed when the work is done, and open while it waits; nothing panics.
abbrev pub IsOver : Res (Unit {0}) × Channel → Type 0
IsOver (ok u, c) = c.closed ≡ true
IsOver (err e, c) = ⊥
IsOver (blocked, c) = c.closed ≡ false
IsOver (panicked, c) = ⊥
IsOver (exited n, c) = ⊥

finish-IsOver :
    (m : Str) (sent : List Str) → IsOver (finish m (record { sent = sent; closed = false }))
unfolding finish send close_channel
finish-IsOver m sent = refl

configure_all-IsOver :
    (is : List Input) (sent : List Str)
    → IsOver (configure_all is (record { sent = sent; closed = false }))
unfolding configure_all send
configure_all-IsOver [] sent = refl
configure_all-IsOver (timed_out e ∷ is) sent = finish-IsOver (lit "Done with dhclient: " ++ e) sent
configure_all-IsOver (drained ∷ is) sent = finish-IsOver (lit "Configured all interfaces") sent
configure_all-IsOver (failed name text ∷ is) sent = configure_all-IsOver is _
configure_all-IsOver (unconfigured name text ∷ is) sent = configure_all-IsOver is _
configure_all-IsOver (leased name text ∷ is) sent = configure_all-IsOver is _

start-IsOver :
    (name : Str) (requests : List Str → List Input) (links : List Str)
    → IsOver (start name requests links (record { sent = []; closed = false }))
start-IsOver name requests [] = finish-IsOver (lit "No interfaces match " ++ name) []
start-IsOver name requests (n ∷ ns) = configure_all-IsOver (requests (n ∷ ns)) []

-- What `Request` leaves: if the expression does not compile, a panic and the channel as it was.
abbrev pub Ends : Option (Str → Bool) → Channel → Res (Unit {0}) × Channel → Type 0
Ends none before p = p ≡ (panicked, before)
Ends (some matches) before p = IsOver p

-- Whatever the links and the answers: if the name of the interfaces is a regular expression, then the goroutines of `Request` never panic, so they neither send on a closed channel nor close it twice, and the channel that they are given new is closed when their work is over, also after an error, and open as long as they wait for an answer. If the name is no regular expression, `Request` panics and leaves the channel open.
pub request-IsOver :
    (compiled : Option (Str → Bool)) (name : Str) (links : Str ⊎ List Str)
    (requests : List Str → List Input)
    → Ends compiled
        (record { sent = []; closed = false })
        (request compiled name links requests (record { sent = []; closed = false }))
unfolding request
request-IsOver none name links requests = refl
request-IsOver (some matches) name (inl e) requests =
    finish-IsOver (lit "Can't get list of link names: " ++ e) []
request-IsOver (some matches) name (inr links) requests =
    start-IsOver name requests (matching matches links)
