-- ===== src/Server/Routes/Names.antt =====
-- crates/server/src/routes/mod.rs: the names of combined subscriptions.
use sub_merge.Base.{ℕ, Bool, not, ◌&&◌, ◌||◌}
use sub_merge.Base.Tests.{◌==◌}
use sub_merge.Base.Text.{Text, is_empty, is_ascii_alphanumeric}
use sub_merge.Base.Lists.{all}

unfoldable pub is_path_char : ℕ → Bool
is_path_char c = is_ascii_alphanumeric c || (c == b'-' || c == b'_')

-- Safe as a segment of a path.
unfoldable pub valid_combined_name : Text → Bool
unfolding is_path_char
valid_combined_name s = not (is_empty s) && all is_path_char s
