-- ===== src/Socket/RateLimit.antt =====
-- The rate limit on requests and errors, over a history of attempts to send.
use embedded_systems_wireles.Base.{
  ℕ, zero, suc, ◌+◌, ◌-◌, ◌≤◌, Option, none, some, List, [], ◌∷◌, if◌then◌else◌,
}
use embedded_systems_wireles.Time.{Timeval, usecs}
use embedded_systems_wireles.Message.{rate_limit}
use embedded_systems_wireles.Socket.{may_send, note_sent}

-- The times at which messages of one kind go, of the times at which they are to.
pub sent_times : List Timeval → List Timeval → List Timeval
sent_times [] ratel = []
sent_times (t ∷ ts) ratel =
    let yes_times = t ∷ sent_times ts (note_sent t ratel) in
    let no_times = sent_times ts ratel in if may_send t ratel then yes_times else no_times

abbrev pub nth : ℕ → List Timeval → Option Timeval
nth n [] = none
nth zero (t ∷ ts) = some t
nth (suc n) (t ∷ ts) = nth n ts

abbrev pub SecondLater : Timeval → Option Timeval → Type 0
SecondLater t none = Unit {0}
SecondLater t (some u) = usecs t + 1000000 ≤ usecs u

-- Each message and the ninth one after it are a second or more apart.
abbrev pub Spaced : List Timeval → Type 0
Spaced [] = Unit {0}
Spaced (t ∷ ts) = SecondLater t (nth (rate_limit - 2) ts) × Spaced ts
