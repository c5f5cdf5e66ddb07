-- ===== src/Archive/Chunks.antt =====
-- The ranges that the loop goes through.
use bifrost_platform_plugin.Prelude.{ℕ, ◌+◌, max, ◌≤◌, ◌<◌, ◌≡◌, refl, arith}
use bifrost_platform_plugin.Dates.{year_of, month_of}
use bifrost_platform_plugin.Dates.Months.{next_month_later, next_month_same}
use bifrost_platform_plugin.Archive.{chunk_end}

pub chunk_end-later : (start cutoff span : ℕ) → start < cutoff → start < chunk_end start cutoff span
unfolding chunk_end
chunk_end-later start cutoff span h = omega (arith, h, next_month_later start)

pub chunk_end-cutoff : (start cutoff span : ℕ) → chunk_end start cutoff span ≤ cutoff
unfolding chunk_end
chunk_end-cutoff start cutoff span = omega arith

-- The end of a range that starts before the cutoff comes after its start and not after the cutoff,
-- the range has at most `span` days (one day where `span` is 0), and all its days are of the
-- start's year and month.
pub chunk_end-bounds :
    (start cutoff span d : ℕ)
    → start < cutoff
    → start ≤ d
    → d < chunk_end start cutoff span
    → (start < chunk_end start cutoff span)
      × (chunk_end start cutoff span ≤ cutoff)
      × (chunk_end start cutoff span ≤ start + max 1 span)
      × (year_of d ≡ year_of start)
      × (month_of d ≡ month_of start)
unfolding chunk_end year_of month_of
chunk_end-bounds start cutoff span d h le lt =
    let (same_year, same_month) = next_month_same start d le (omega (arith, lt)) in
    (
      chunk_end-later start cutoff span h,
      omega arith,
      omega arith,
      rw (same_month, same_year) refl,
      rw same_month refl,
    )
