-- ===== src/RtspClient/Tests.antt =====
-- Runs of `parse_rtsp_url` on concrete URLs, and its theorems at concrete inputs.
use canok_rtsp_client.Base.{◌≡◌, refl, [], arith}
use canok_rtsp_client.Base.Outcome.{done, fault}
use canok_rtsp_client.Macros.{ret_sucess, ret_err}
use canok_rtsp_client.Text.{codes, starts_with_case, scan_until, is_space, is_digit, value}
use canok_rtsp_client.Text.Laws.{every, every-All}
use canok_rtsp_client.RtspClient.{Server, parse_rtsp_url, scan_ip}
use canok_rtsp_client.RtspClient.Url.{
  IsAddress, is_ip_byte, is_path_byte, parse_rtsp_url-url_of, parse_rtsp_url_overflow,
}

abbrev blank_server : Server
blank_server = record { url = []; server_ip = []; server_port = 0 }

local-IsAddress : IsAddress b'1' (codes "27.0.0.1") b'8' (codes "989") b'/' (codes "stream")
unfolding every is_space is_digit value
local-IsAddress = record {
  host_bytes = every-All is_ip_byte (codes "127.0.0.1") refl;
  port_bytes = every-All is_digit (codes "8989") refl;
  path_bytes = every-All is_path_byte (codes "/stream") refl;
  port_ends = refl;
  port_fits = omega arith;
  path_fits = omega arith;
  url_fits = omega arith;
}

parse_rtsp_url-url_of_example :
    parse_rtsp_url (codes "rtsp://127.0.0.1:8989/stream") blank_server
    ≡ done ret_sucess (record {
      url = codes "rtsp://127.0.0.1:8989/stream";
      server_ip = codes "127.0.0.1";
      server_port = value 0 (codes "8989");
    })
parse_rtsp_url-url_of_example = parse_rtsp_url-url_of local-IsAddress blank_server (omega arith)

named-IsAddress : IsAddress b'c' (codes "amera.example.org") b'5' (codes "54") b'/' (codes "live")
unfolding every is_space is_digit value
named-IsAddress = record {
  host_bytes = every-All is_ip_byte (codes "camera.example.org") refl;
  port_bytes = every-All is_digit (codes "554") refl;
  path_bytes = every-All is_path_byte (codes "/live") refl;
  port_ends = refl;
  port_fits = omega arith;
  path_fits = omega arith;
  url_fits = omega arith;
}

parse_rtsp_url_overflow_example :
    parse_rtsp_url (codes "rtsp://camera.example.org:554/live") blank_server ≡ fault
parse_rtsp_url_overflow_example = parse_rtsp_url_overflow named-IsAddress blank_server (omega arith)

-- A URL without a port is refused, after the host has been stored.
parse_no_port :
    parse_rtsp_url (codes "rtsp://camera/live") blank_server
    ≡ done ret_err (record {
      url = codes "rtsp://camera/live";
      server_ip = codes "camera/live";
      server_port = 0;
    })
unfolding parse_rtsp_url starts_with_case scan_until scan_ip
parse_no_port = refl
