-- ===== src/Texts/Tests.antt =====
-- The texts of addresses at concrete inputs.
use pnet2csv.Common.{◌≡◌, [], some}
use pnet2csv.Config.Netif.{copy_ip_to_struct}
use pnet2csv.Texts.{ip_to_string}
use pnet2csv.Texts.Addresses.{read_ip, read_ip-ip_to_string}

-- 192.168.0.50
read_ip-ip_to_string_example :
    read_ip (ip_to_string 0xC0A80032) ≡ some (copy_ip_to_struct 0xC0A80032, [])
read_ip-ip_to_string_example = read_ip-ip_to_string 0xC0A80032
