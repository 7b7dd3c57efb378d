-- ===== src/Control/Channels.antt =====
-- client.go: the QUIC datagram channels of a control channel. A channel is an object with a number; `closings`
-- lists those whose close was initiated, which has an effect the first time. Behind `detachCleanupLocked` the maps are nil, here empty.
use rstream_go.Base.{
  ℕ, ◌+◌, Bool, true, false, not, ◌||◌, Option, none, some, List, [], ◌∷◌, ◌++◌, if◌then◌else◌,
  ◌==◌, is_some, Text, equal, Dict, lookup, insert, delete,
}

-- `laddr` names the tunnel; `is_backed` is `registryBacked` and `is_accepted` is `accepted()`.
pub record Channel : Type 0 where
  pub number : ℕ
  pub laddr : Text
  pub is_backed : Bool
  pub is_accepted : Bool

pub record Datagrams : Type 0 where
  pub listeners : Dict ℕ
  pub channels : Dict Channel
  pub next_number : ℕ
  pub closings : List ℕ
  pub closed_listeners : List ℕ

-- `detachDatagramChannelsForTunnelLocked`: what stays, and the channels of the tunnel.
unfoldable pub detach_for : Text → Dict Channel → Dict Channel × List ℕ
detach_for id [] = ([], [])
detach_for id ((k, ch) ∷ m) =
    let (rest, gone) = detach_for id m in
    if equal ch.laddr id then (rest, ch.number ∷ gone) else ((k, ch) ∷ rest, gone)

abbrev pub one_of : Option ℕ → List ℕ
one_of none = []
one_of (some n) = n ∷ []

-- The part of `handleCloseTunnelRsp` on datagrams, with its cleanup.
unfoldable pub detach_tunnel : Text → Datagrams → Datagrams
unfolding detach_for
detach_tunnel id d =
    let (rest, gone) = detach_for id d.channels in
    record d {
      listeners = delete id d.listeners;
      channels = rest;
      closings = gone ++ d.closings;
      closed_listeners = one_of (lookup id d.listeners) ++ d.closed_listeners;
    }

abbrev pub numbers : Dict ℕ → List ℕ
numbers [] = []
numbers ((_, n) ∷ m) = n ∷ numbers m

-- The channels that the cleanup closes: all, or those that the transport's registry does not keep alive.
unfoldable pub doomed : Bool → Dict Channel → List ℕ
doomed preserve [] = []
doomed preserve ((_, ch) ∷ m) =
    let rest = doomed preserve m in
    if not preserve || not ch.is_backed || not ch.is_accepted then ch.number ∷ rest else rest

-- The part of `detachCleanupLocked` and of its cleanup on datagrams.
unfoldable pub detach_all : Bool → Datagrams → Datagrams
unfolding doomed
detach_all preserve d = record d {
  listeners = [];
  channels = [];
  closings = doomed preserve d.channels ++ d.closings;
  closed_listeners = numbers d.listeners ++ d.closed_listeners;
}

-- `handleDatagramChannelClose`, for an identifier that parses.
unfoldable pub close_channel : Text → Datagrams → Datagrams
close_channel key d = elim (lookup key d.channels) [
  | none ↦ d
  | some ch ↦ record d { channels = delete key d.channels; closings = ch.number ∷ d.closings }
]

-- `unregisterDatagramChannel` for the channel `n`, from the close of the channel itself or from a failed opening.
unfoldable pub unregister : Text → ℕ → Datagrams → Datagrams
unregister key n d = elim (lookup key d.channels) [
  | none ↦ d
  | some ch ↦ if ch.number == n then record d { channels = delete key d.channels } else d
]

-- The critical section of `handleDatagramProxyConnReq`, for a valid stream: `key` is the identifier of the channel,
-- `backed` says whether the transport has a registry. The result is the channel that stands in the map.
unfoldable pub insert_channel : Bool → Text → Text → Bool → Datagrams → Datagrams × Option ℕ
insert_channel is_closed key tunnel backed d =
    let n = d.next_number in
    let ch : Channel = record {
      number = n;
      laddr = tunnel;
      is_backed = backed;
      is_accepted = false;
    } in
    if is_closed || is_some (lookup key d.channels)
    then (record d { next_number = n + 1; closings = n ∷ d.closings }, none)
    else (record d { next_number = n + 1; channels = insert key ch d.channels }, some n)

-- What follows it when the opening fails: the registry has the identifier already, so the channel leaves the map first,
-- or there is no listener, or none with room. The `unregister` that the close runs is a step of its own.
unfoldable pub fail_channel : Bool → Text → ℕ → Datagrams → Datagrams
unfolding unregister
fail_channel is_rejected key n d =
    let d' = if is_rejected then unregister key n d else d in
    record d' { closings = n ∷ d'.closings }

-- `accept`, when the application takes the channel `n` from the listener.
unfoldable pub accept_channel : Text → ℕ → Datagrams → Datagrams
accept_channel key n d = elim (lookup key d.channels) [
  | none ↦ d
  | some ch ↦
      if ch.number == n
      then record d { channels = insert key (record ch { is_accepted = true }) d.channels }
      else d
]
