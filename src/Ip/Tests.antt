-- ===== src/Ip/Tests.antt =====
-- Addresses read and printed, as Go does it.
use elchi_gslb.Prelude.{◌≡◌, refl, none, some, Option}
use elchi_gslb.Text.{Text, text}
use elchi_gslb.Ip.{parse_ip, ip_string}

abbrev printed : Text → Option Text
printed s = elim (parse_ip s) [ none ↦ none | some ip ↦ some (ip_string ip) ]

reads_v4 : printed (text "192.168.1.10") ≡ some (text "192.168.1.10")
unfolding parse_ip ip_string
reads_v4 = refl

refuses_v4 :
    (parse_ip (text "192.168.01.1") ≡ none)
    × (parse_ip (text "256.1.1.1") ≡ none)
    × (parse_ip (text "1.2.3") ≡ none)
    × (parse_ip (text "1.2.3.4.") ≡ none)
    × (parse_ip (text "") ≡ none)
unfolding parse_ip
refuses_v4 = (refl, refl, refl, refl, refl)

reads_v6 :
    (printed (text "2001:DB8::1") ≡ some (text "2001:db8::1"))
    × (printed (text "::") ≡ some (text "::"))
    × (printed (text "1::") ≡ some (text "1::"))
    × (printed (text "0:0:1:0:0:0:0:8") ≡ some (text "0:0:1::8"))
    × (printed (text "::ffff:1.2.3.4") ≡ some (text "1.2.3.4"))
    × (printed (text "1:2:3:4:5:6:7:8") ≡ some (text "1:2:3:4:5:6:7:8"))
unfolding parse_ip ip_string
reads_v6 = (refl, refl, refl, refl, refl, refl)

refuses_v6 :
    (parse_ip (text "1:2:3:4:5:6:7") ≡ none)
    × (parse_ip (text "1::2::3") ≡ none)
    × (parse_ip (text "12345::") ≡ none)
    × (parse_ip (text "fe80::1%eth0") ≡ none)
    × (parse_ip (text "1:2:3:4:5:6:7:8:9") ≡ none)
    × (parse_ip (text "1:2:3:4::5:6:7:8") ≡ none)
unfolding parse_ip
refuses_v6 = (refl, refl, refl, refl, refl, refl)
