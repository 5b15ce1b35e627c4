-- ===== src/Ingestion/Finality.antt =====
-- ingestion/finality.py: the watermark. What the node answers to `get_finalized_block_number` is a
-- parameter, `none` where the call raises; the settings are the keys of the YAML document.
pub mod Promotion
use chainlink_economic_ledge.Prelude.{
  ℕ, String, Option, none, some, max, Bool, leb, ltb, if◌then◌else◌, get_some, ℤ, pos, negsuc,
}

abbrev pub default_finality_depth : ℕ
default_finality_depth = 64

-- The entries of the settings that are read: two of the `ingestion` section and one of the top.
pub record Settings : Type 0 where
  pub ingestion_finality_window_blocks : Option ℕ
  pub ingestion_finality_depth : Option ℕ
  pub finality_window_blocks : Option ℕ

-- `none` is a missing file.
unfoldable pub load_finality_window_blocks : Option Settings → ℕ → ℕ
load_finality_window_blocks none default = default
load_finality_window_blocks (some doc) default =
    get_some (get_some (get_some default doc.finality_window_blocks) doc.ingestion_finality_depth)
      doc.ingestion_finality_window_blocks

unfoldable pub compute_finality_watermark : Option ℤ → ℕ → ℕ
compute_finality_watermark none finality_depth = max 0 finality_depth
compute_finality_watermark (some (negsuc _)) finality_depth = max 0 finality_depth
compute_finality_watermark (some (pos fin)) finality_depth =
    if ltb 0 fin then fin else max 0 finality_depth

unfoldable pub is_block_finalized : ℕ → ℕ → Bool
is_block_finalized block_number watermark = leb block_number watermark

unfoldable pub compute_safe_to_block : Option ℤ → ℕ → ℕ
compute_safe_to_block answer finality_depth = compute_finality_watermark answer finality_depth

unfoldable pub watermark_from_settings : Option Settings → ℕ
unfolding load_finality_window_blocks
watermark_from_settings doc = load_finality_window_blocks doc default_finality_depth
