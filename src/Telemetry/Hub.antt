-- ===== src/Telemetry/Hub.antt =====
-- internal/store/console_hub.go: the subscribers of a server's console. A channel is the list of the
-- lines that wait in it; the receiver of the pattern `select` with a default never waits.
use gu_gu_manager.Base.{
  ℕ, ◌+◌, String, Bool, true, false, none, some, List, [], ◌∷◌, ◌++◌, ltb, ◌==◌, if◌then◌else◌,
  length, drop,
}
use gu_gu_manager.Base.Maps.{Assoc, lookup, insert, remove}
use gu_gu_manager.Telemetry.Console.{ConsoleLine}

pub record Subscriber : Type 0 where
  pub id : ℕ
  pub channel : List ConsoleLine

pub record ConsoleHub : Type 0 where
  pub subs : Assoc (List Subscriber)
  pub next_id : ℕ
  pub buffered : ℕ

abbrev pub console_hub_buffer : ℕ
console_hub_buffer = 256

abbrev pub new_console_hub : ConsoleHub
new_console_hub = record { subs = []; next_id = 0; buffered = console_hub_buffer }

unfoldable pub subscribers : String → ConsoleHub → List Subscriber
unfolding lookup
subscribers server_id h = elim (lookup server_id h.subs) [ none ↦ [] | some subs ↦ subs ]

-- The hub with the new subscriber, and the identifier that its cancel function holds.
unfoldable pub subscribe : String → ConsoleHub → ConsoleHub × ℕ
unfolding subscribers insert
subscribe server_id h =
    let id = h.next_id + 1 in
    (
      record h {
        next_id = id;
        subs =
            insert server_id (subscribers server_id h ++ record { id = id; channel = [] } ∷ [])
              h.subs;
      },
      id,
    )

unfoldable pub without : ℕ → List Subscriber → List Subscriber
without id [] = []
without id (s ∷ subs) = if s.id == id then subs else s ∷ without id subs

unfoldable pub is_no_one : List Subscriber → Bool
is_no_one [] = true
is_no_one (s ∷ subs) = false

unfoldable pub cancel_subscription : String → ℕ → ConsoleHub → ConsoleHub
unfolding subscribers without is_no_one insert remove
cancel_subscription server_id id h =
    let left = without id (subscribers server_id h) in
    record h {
      subs = if is_no_one left then remove server_id h.subs else insert server_id left h.subs;
    }

-- `case sub <- line` and, where the channel is full, the two selects that make room.
unfoldable pub offer : ℕ → List ConsoleLine → ConsoleLine → List ConsoleLine
offer buffered channel line =
    if ltb (length channel) buffered then channel ++ line ∷ [] else drop 1 channel ++ line ∷ []

unfoldable pub offer_all : ℕ → List ConsoleLine → List ConsoleLine → List ConsoleLine
unfolding offer
offer_all buffered channel [] = channel
offer_all buffered channel (line ∷ lines) = offer_all buffered (offer buffered channel line) lines

unfoldable pub offer_subscribers : ℕ → List ConsoleLine → List Subscriber → List Subscriber
unfolding offer_all
offer_subscribers buffered lines [] = []
offer_subscribers buffered lines (s ∷ subs) =
    record s { channel = offer_all buffered s.channel lines }
    ∷ offer_subscribers buffered lines subs

unfoldable pub publish : String → List ConsoleLine → ConsoleHub → ConsoleHub
unfolding offer_subscribers lookup insert
publish server_id [] h = h
publish server_id (line ∷ lines) h = elim (lookup server_id h.subs) [
  | none ↦ h
  | some subs ↦ record h {
    subs = insert server_id (offer_subscribers h.buffered (line ∷ lines) subs) h.subs;
  }
]
