-- ===== src/Tests/EndPoint.antt =====
-- End points at concrete addresses.
use mod_server.Prelude.{◌<◌, ◌≡◌, ◌↔◌, ◌-◌, arith, ltb→lt, refl, Bytes, length, take, replicate}
use mod_server.Prelude.Fault.{ok, fault, failed_assert}
use mod_server.Prelude.Text.{codes}
use mod_server.Server.IpEndPoint.{IpEndPoint, ip_size, end_point_of_c_string, set_ip, ip}
use mod_server.Server.IpEndPoint.Laws.{IsText, ip-set_ip, set_ip-assert, ip-end_point_of_c_string}

abbrev home : Bytes
home = codes "127.0.0.1"

home-IsText : IsText home
home-IsText = ground arith

abbrev unset : IpEndPoint
unset = record { m_ip = replicate ip_size 7; m_port = 80 }

ip-set_ip_example :
    (ep' : IpEndPoint) × (set_ip unset home ≡ ok ep')
    × (ip ep' ≡ home)
    × (ep'.m_port ≡ 80)
    × (length ep'.m_ip ≡ ip_size)
ip-set_ip_example = ip-set_ip unset home refl home-IsText (ltb→lt 0 9 refl) (ltb→lt 9 19 refl)

abbrev nineteen : Bytes
nineteen = replicate 19 b'1'

long_text_fails :
    (set_ip unset nineteen ≡ fault failed_assert)
    ↔ ¬ ((0 < length nineteen) × (length nineteen < ip_size - 1))
long_text_fails = set_ip-assert unset nineteen

home_is_held :
    (ip (end_point_of_c_string (replicate 20 7) home 80) ≡ take 19 home)
    × (length (end_point_of_c_string (replicate 20 7) home 80).m_ip ≡ ip_size)
home_is_held = ip-end_point_of_c_string (replicate 20 7) home 80 refl home-IsText
