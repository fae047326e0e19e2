-- ===== src/Agent/MemInfo.antt =====
-- server.rs `get_mem_info`: what of /proc/meminfo is reported.
use containerd_cloudhypervis.Common.{
  ℕ, ◌+◌, ◌-◌, ◌*◌, ◌^◌, ◌≡◌, refl, ◌&&◌, Option, none, some, List, [], ◌∷◌, ◌++◌, Text, codes,
  if◌then◌else◌, ◌==◌, ltb, leb, unwrap_or, ite, Text-discrete, split,
}
use containerd_cloudhypervis.Shadow.Cmdline.{split_whitespace}

pub record MemInfo : Type 0 where
  pub mem_total_kb : ℕ
  pub mem_free_kb : ℕ
  pub mem_available_kb : ℕ
  pub buffers_kb : ℕ
  pub cached_kb : ℕ
  pub swap_total_kb : ℕ
  pub swap_free_kb : ℕ

abbrev nothing : MemInfo
nothing = record {
  mem_total_kb = 0;
  mem_free_kb = 0;
  mem_available_kb = 0;
  buffers_kb = 0;
  cached_kb = 0;
  swap_total_kb = 0;
  swap_free_kb = 0;
}

digits_from : ℕ → Text → Option ℕ
digits_from acc [] = some acc
digits_from acc (c ∷ cs) =
    let next = acc * 10 + (c - b'0') in
    let rest = digits_from next cs in
    if leb b'0' c && leb c b'9' && ltb next (2 ^ 64) then rest else none

-- `str::parse::<u64>`.
unfoldable pub parse_u64 : Text → Option ℕ
unfolding digits_from
parse_u64 [] = none
parse_u64 (c ∷ []) = if c == b'+' then none else digits_from 0 (c ∷ [])
parse_u64 (c ∷ d ∷ cs) = if c == b'+' then digits_from 0 (d ∷ cs) else digits_from 0 (c ∷ d ∷ cs)

-- The `match` on the first word of a line.
unfoldable pub set_field : Text → ℕ → MemInfo → MemInfo
set_field key val r =
    ite (Text-discrete key (codes "MemTotal:")) (record r { mem_total_kb = val })
      (ite (Text-discrete key (codes "MemFree:")) (record r { mem_free_kb = val })
        (ite (Text-discrete key (codes "MemAvailable:")) (record r { mem_available_kb = val })
          (ite (Text-discrete key (codes "Buffers:")) (record r { buffers_kb = val })
            (ite (Text-discrete key (codes "Cached:")) (record r { cached_kb = val })
              (ite (Text-discrete key (codes "SwapTotal:")) (record r { swap_total_kb = val })
                (ite (Text-discrete key (codes "SwapFree:")) (record r { swap_free_kb = val })
                  r))))))

read_words : List Text → MemInfo → MemInfo
unfolding set_field parse_u64
read_words (key ∷ val ∷ words) r = set_field key (unwrap_or (parse_u64 val) 0) r
read_words words r = r

read_lines : List Text → MemInfo → MemInfo
unfolding read_words split_whitespace
read_lines [] r = r
read_lines (line ∷ lines) r = read_lines lines (read_words (split_whitespace line) r)

-- A line's carriage return is white space, and an empty last line has no words.
unfoldable pub get_mem_info : Option Text → Option MemInfo
unfolding read_lines split
get_mem_info none = none
get_mem_info (some content) = some (read_lines (split 10 content) nothing)

mem_info_test :
    get_mem_info (some (codes "MemTotal:  2048 kB" ++ 10 ∷ codes "SwapFree: 7 kB" ++ 10 ∷ []))
    ≡ some (record nothing { mem_total_kb = 2048; swap_free_kb = 7 })
unfolding get_mem_info Text-discrete
mem_info_test = refl
