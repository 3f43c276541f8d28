-- ===== src/Protocol/Transport.antt =====
-- `parseTransportParams` of my_rtsp_client/cRTSPprotocol.cpp: the parameters of a Transport header.
pub mod Fields
use canok_rtsp_client.Base.{
  ℕ, zero, suc, ◌+◌, ◌%◌, ◌==◌, ◌<◌, ◌≤◌, ◌≡◌, refl, sym, ap, ◌∙◌, if◌then◌else◌, ◌||◌, ◌&&◌, not,
  Bool, true, false, Option, none, some, Bytes, List, [], ◌∷◌, ◌++◌, arith, length, drop,
}
use canok_rtsp_client.Text.{
  codes, starts_with_case, str_equal, span, some_bytes, scan_literal, scan_unsigned, scan_until,
  ◌>>=◌,
}
use canok_rtsp_client.Text.Laws.{All, Stops, span-append}

-- The local variables of the function; `server_port` is the result parameter `serverPortNum`.
pub record Transport : Type 0 where
  pub server_address : Option Bytes
  pub server_port : ℕ
  pub found_server_port : Bool
  pub client_port : ℕ
  pub found_client_port : Bool
  pub rtp_channel_id : ℕ
  pub rtcp_channel_id : ℕ
  pub found_channel_ids : Bool
  pub is_multicast : Bool
  pub destination : Option Bytes
  pub multicast_port : ℕ
  pub found_multicast_port : Bool

abbrev pub no_fields : Transport
no_fields = record {
  server_address = none;
  server_port = 0;
  found_server_port = false;
  client_port = 0;
  found_client_port = false;
  rtp_channel_id = 0xff;
  rtcp_channel_id = 0xff;
  found_channel_ids = false;
  is_multicast = true;
  destination = none;
  multicast_port = 0;
  found_multicast_port = false;
}

-- A number behind a name, "name=%hu".
pub scan_port_of : Bytes → Bytes → Option ℕ
unfolding scan_literal scan_unsigned
scan_port_of name field = do s ← scan_literal name field; (n, rest) ← scan_unsigned 16 s; some n

-- "interleaved=%u-%u".
pub scan_channels : Bytes → Option (ℕ × ℕ)
unfolding scan_literal scan_unsigned
scan_channels field = do
  s ← scan_literal (codes "interleaved=") field
  (rtp, rest) ← scan_unsigned 32 s
  behind ← scan_literal (codes "-") rest
  (rtcp, end) ← scan_unsigned 32 behind
  some (rtp, rtcp)

-- The branches on one field, in the code's order. Both formats of the last one store the same number.
pub take_multicast : Bytes → Transport → Transport
unfolding scan_port_of
take_multicast field t = elim (scan_port_of (codes "port=") field) [
  | some n ↦ record t { multicast_port = n; found_multicast_port = true }
  | none ↦ t
]

pub take_words : Bytes → Transport → Transport
unfolding str_equal starts_with_case take_multicast
take_words field t =
    if str_equal field (codes "unicast")
    then record t { is_multicast = false }
    else if starts_with_case field (codes "destination=")
    then record t { destination = some (drop 12 field) }
    else take_multicast field t

pub take_channels : Bytes → Transport → Transport
unfolding scan_channels take_words
take_channels field t = elim (scan_channels field) [
  | some (rtp, rtcp) ↦ record t {
    rtp_channel_id = rtp % 256;
    rtcp_channel_id = rtcp % 256;
    found_channel_ids = true;
  }
  | none ↦ take_words field t
]

pub take_source : Bytes → Transport → Transport
unfolding starts_with_case take_channels
take_source field t =
    if starts_with_case field (codes "source=")
    then record t { server_address = some (drop 7 field) }
    else take_channels field t

pub take_client : Bytes → Transport → Transport
unfolding scan_port_of take_source
take_client field t = elim (scan_port_of (codes "client_port=") field) [
  | some n ↦ record t { client_port = n; found_client_port = true }
  | none ↦ take_source field t
]

unfoldable pub take_field : Bytes → Transport → Transport
unfolding scan_port_of take_client
take_field field t = elim (scan_port_of (codes "server_port=") field) [
  | some n ↦ record t { server_port = n; found_server_port = true }
  | none ↦ take_client field t
]

-- The rest of the fields, where the string goes on.
pub more_fields : (Bytes → Transport → Option Transport) → Bytes → Transport → Option Transport
more_fields again [] t = some t
more_fields again (c ∷ s) t = again (c ∷ s) t

-- A round of the loop, on what "%[^;]" gives; `again` is the loop.
pub taken :
    (Bytes → Transport → Option Transport) → Transport → Option (Bytes × Bytes) → Option Transport
unfolding span take_field more_fields
taken again t none = some t
taken again t (some (field, rest)) =
    more_fields again (span (λ c. c == b';') rest).1 (take_field field t)

-- The loop, on fuel; without fuel the result is `none`.
pub take_fields : ℕ → Bytes → Transport → Option Transport
unfolding scan_until taken
take_fields zero s t = none
take_fields (suc n) s t = taken (take_fields n) t (scan_until b';' s)

-- What the function returns, and its result parameters.
pub record TransportParams : Type 0 where
  pub ok : Bool
  pub address : Option Bytes
  pub port : ℕ
  pub rtp_channel : ℕ
  pub rtcp_channel : ℕ

abbrev params : Bool → Option Bytes → ℕ → Transport → TransportParams
params ok address port t = record {
  ok = ok;
  address = address;
  port = port;
  rtp_channel = t.rtp_channel_id;
  rtcp_channel = t.rtcp_channel_id;
}

pub is_set : Option Bytes → Bool
is_set none = false
is_set (some s) = true

-- After the loop.
pub conclude : Transport → TransportParams
unfolding is_set
conclude t =
    if t.is_multicast && (is_set t.destination && t.found_multicast_port)
    then params true t.destination t.multicast_port t
    else if t.found_channel_ids || (t.found_server_port || t.found_client_port)
    then params true t.server_address
        (if t.found_client_port && not t.found_server_port then t.client_port else t.server_port) t
    else params false none t.server_port t

-- `parseTransportParams(paramsStr, ...)`.
unfoldable pub parse_transport_params : Option Bytes → Option TransportParams
unfolding take_fields conclude
parse_transport_params none = some (params false none 0 no_fields)
parse_transport_params (some s) = do t ← take_fields (suc (length s)) s no_fields; some (conclude t)
