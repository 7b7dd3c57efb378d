-- ===== src/Socks/Tests.antt =====
-- socks5_proxy.go: runs on concrete input.
use rstream_go.Base.{
  ◌≡◌, refl, inr, arith, true, false, Option, none, some, [], ◌∷◌, ◌++◌, if◌then◌else◌, Text, codes,
  length, ◌==◌, equal,
}
use rstream_go.Socks.{Bytes, Address, Net, IsNet, done, encode_address, version}
use rstream_go.Socks.Client.{
  Url, ProxyConfig, config_from_raw, choose_credentials, greeting, user_pass_request, handshake,
  Conn,
}
use rstream_go.Socks.Wire.{spelled}
use rstream_go.Socks.Transcript
use rstream_go.Socks.Secrecy
use rstream_go.Socks.Relay
use rstream_go.Socks.Relay.{
  Arrival, accept, write_to, read_from, build_datagram, decode_datagram, take,
}
use rstream_go.Socks.Transcript.{conn, introduction}
use rstream_go.Socks.Secrecy.{Plain}
use rstream_go.Socks.Credentials.{read_credentials}
use rstream_go.Socks.Credentials

-- A network that knows one IP address.
abbrev local : Net
local = record {
  parse_ip = λ s. if equal s (codes "127.0.0.1") then some (127 ∷ 0 ∷ 0 ∷ 1 ∷ []) else none;
  to4 = λ ip. if length ip == 4 then some ip else none;
  to16 = λ ip. if length ip == 16 then some ip else none;
  ip_text = λ _. codes "127.0.0.1";
}

local-IsNet : IsNet local
local-IsNet = record {
  to4_length = λ ip v h. ground (arith, h);
  to16_length = λ ip v h. ground (arith, h);
}

abbrev config : ProxyConfig
config = record {
  address = codes "proxy:1080";
  username = codes "u";
  password = codes "pw";
  auth = true;
}

abbrev target : Address
target = record { host = codes "a.b"; port = 443 }

abbrev bound : Address
bound = record { host = codes "127.0.0.1"; port = 258 }

abbrev request : Bytes
request = 3 ∷ 3 ∷ 97 ∷ 46 ∷ 98 ∷ 1 ∷ 187 ∷ []

encode_target : encode_address local target ≡ done request
unfolding encode_address equal
encode_target = refl

encode_bound : encode_address local bound ≡ done (1 ∷ 127 ∷ 0 ∷ 0 ∷ 1 ∷ 1 ∷ 2 ∷ [])
unfolding encode_address equal
encode_bound = refl

handshake_complete_example :
    handshake local config 1 target (
      conn
        (5 ∷ 2 ∷ 1 ∷ 0 ∷ 5 ∷ 0 ∷ 0 ∷ 1 ∷ 127 ∷ 0 ∷ 0 ∷ 1 ∷ 1 ∷ 2 ∷ 42 ∷ [])
        []
        (true ∷ true ∷ true ∷ []))
    ≡ (
      done (record { host = spelled local bound.host; port = 258 }),
      conn (42 ∷ []) ((greeting config ++ introduction true config) ++ (5 ∷ 1 ∷ 0 ∷ request)) [],
    )
handshake_complete_example =
    Transcript.handshake_complete local config true 1 target bound request
      (1 ∷ 127 ∷ 0 ∷ 0 ∷ 1 ∷ 1 ∷ 2 ∷ []) (42 ∷ []) local-IsNet (λ _. refl) encode_target
      encode_bound

-- A proxy that asks for no credentials.
abbrev silent : Conn
silent = conn (5 ∷ 0 ∷ []) [] (true ∷ true ∷ [])

silent_no_ask : ¬ ((r : Bytes) × (silent.incoming ≡ version ∷ 2 ∷ r))
silent_no_ask (r, h) = absurd (ground (arith, h))

handshake-keeps_credentials_example :
    Plain local config 1 target (handshake local config 1 target silent).1.outgoing
handshake-keeps_credentials_example =
    Secrecy.handshake-keeps_credentials local config 1 target silent (inr silent_no_ask) refl

abbrev packet : Bytes
packet = 0 ∷ 0 ∷ 0 ∷ 3 ∷ 3 ∷ 97 ∷ 46 ∷ 98 ∷ 1 ∷ 187 ∷ 7 ∷ 8 ∷ []

build_packet : build_datagram local target (7 ∷ 8 ∷ []) ≡ done packet
unfolding build_datagram
build_packet = rw (build_datagram, encode_target) refl

datagram_round_trip_example :
    decode_datagram local packet
    ≡ done (7 ∷ 8 ∷ [], record { host = spelled local target.host; port = 443 })
datagram_round_trip_example =
    Relay.datagram_round_trip local target (7 ∷ 8 ∷ []) packet local-IsNet build_packet

-- A datagram of someone else.
abbrev stray : Arrival
stray = record { from_relay = false; packet = packet }

stray_ignored : accept local target stray ≡ none
unfolding accept
stray_ignored = refl

write_packet : write_to local (λ _. none) (λ _. none) target none (7 ∷ 8 ∷ []) ≡ some (done packet)
unfolding write_to
write_packet = rw (write_to, build_packet) refl

read_from-write_to_example :
    read_from local target 1 (stray ∷ record { from_relay = true; packet = packet } ∷ stray ∷ [])
    ≡ some (7 ∷ [], stray ∷ [])
read_from-write_to_example =
    Relay.read_from-write_to local (λ _. none) (λ _. none) target (7 ∷ 8 ∷ []) packet 1 (stray ∷ [])
      (stray ∷ []) local-IsNet (omega arith) (stray_ignored, tt) write_packet

abbrev parse : Text → Option Url
parse _ =
    some (record { scheme = codes "socks5"; hostname = codes "proxy"; port = []; user = none })

abbrev join : Text → Text → Text
join h p = h ++ (58 ∷ p)

config_ok :
    config_from_raw parse join (codes "proxy") (some (codes "u")) (some (codes "pw")) ≡ some config
unfolding config_from_raw equal choose_credentials
config_ok = refl

read_credentials-request_example :
    read_credentials (user_pass_request (codes "u") (codes "pw")) ≡ done (codes "u", codes "pw")
read_credentials-request_example =
    Credentials.read_credentials-request parse join (codes "proxy") (some (codes "u"))
      (some (codes "pw")) config config_ok refl
