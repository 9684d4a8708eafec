-- ===== src/Device/Process/Sizes.antt =====
-- The process data keep the sizes and ranges of their C types.
use pnet2csv.Common.{
  ℕ, zero, suc, ◌<◌, ◌≡◌, List, [], ◌∷◌, some, arith, length, length-set, length-take, get_or, All,
  ◌∙◌,
}
use pnet2csv.Host.{Host}
use pnet2csv.FileLogger.Entry.{IsDtl, var64_size}
use pnet2csv.AppData.{AppData, decode_timestamp, set_output_data, set_default_outputs}
use pnet2csv.Slots.{Subslot}
use pnet2csv.Device.Process.{
  Process, CyclicAnswers, default_once, handle_output, cyclic_data_callback, new_data_status_ind,
}

pub record IsSized (d : AppData) : Type 0 where
  pub fresh : IsDtl d.plc_timestamp
  pub full : length d.variabledata ≡ var64_size

-- What P-Net leaves in the buffer of 130 bytes.
pub record IsBuffer (a : CyclicAnswers) : Type 0 where
  pub whole : length a.outdata ≡ 130
  pub bytes : All (λ b. b < 256) a.outdata

get_or-lt : (bs : List ℕ) (i : ℕ) → All (λ b. b < 256) bs → get_or bs i 0 < 256
get_or-lt [] i h = omega arith
get_or-lt (b ∷ bs) zero (h, hs) = h
get_or-lt (b ∷ bs) (suc i) (h, hs) = get_or-lt bs i hs

decode_timestamp-IsDtl :
    (h : Host) (bs : List ℕ) → All (λ b. b < 256) bs → IsDtl (decode_timestamp h bs)
unfolding decode_timestamp
decode_timestamp-IsDtl h bs lt =
    let b = λ (i : ℕ). get_or-lt bs i lt in
    record {
      year_lt = omega (arith, h.load_be16 (get_or bs 0 0) (get_or bs 1 0) (b 0) (b 1), b 0, b 1);
      month_lt = b 2;
      day_lt = b 3;
      weekday_lt = b 4;
      hour_lt = b 5;
      minute_lt = b 6;
      second_lt = b 7;
      nanosecond_lt = omega (
        arith,
        h.load_be32 (get_or bs 8 0) (get_or bs 9 0) (get_or bs 10 0) (get_or bs 11 0) (b 8) (b 9)
            (b 10) (b 11),
        b 8,
        b 9,
        b 10,
        b 11,
      );
    }

set_output_data-IsSized :
    (h : Host) (d : AppData) (id : ℕ) (bs : List ℕ) (size : ℕ)
    → IsSized d
    → All (λ b. b < 256) bs
    → length bs ≡ 130
    → IsSized (set_output_data h d id (some bs) size).0
unfolding set_output_data
set_output_data-IsSized h d id bs size v lt n =
    let fresh = decode_timestamp-IsDtl h bs lt in ground (arith, fresh, length-take size bs, v)

pub set_default_outputs-IsSized : (d : AppData) → IsSized d → IsSized (set_default_outputs d)
unfolding set_default_outputs
set_default_outputs-IsSized d v = record {
  fresh = v.fresh;
  full = length-set d.variabledata 0 0 ∙ v.full;
}

pub new_data_status_ind-IsSized :
    (d : AppData) (n : ℕ) → IsSized d → IsSized (new_data_status_ind d n)
unfolding new_data_status_ind
new_data_status_ind-IsSized d n v =
    let default = set_default_outputs-IsSized d v in ground (arith, default)

pub cyclic_data_callback-IsSized :
    (h : Host) (a : CyclicAnswers) (p : Process) (s : Subslot)
    → IsSized p.app_data
    → IsBuffer a
    → IsSized (cyclic_data_callback h a p s).0.app_data
unfolding cyclic_data_callback handle_output default_once
cyclic_data_callback-IsSized h a p s v b =
    let stored =
      set_output_data-IsSized h p.app_data s.submodule_id a.outdata a.outdata_length v b.bytes
        b.whole in
    let default = set_default_outputs-IsSized p.app_data v in ground (arith, stored, default)
