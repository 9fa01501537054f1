-- ===== src/Workspaces/Storage.antt =====
-- The test on a Workspace's identifier before it becomes a directory
-- (src/transit_scholar/layer3/storage/paths.py).
use Prim.Native.Char.{code}
use Prim.Native.String.{String, [], ◌∷◌}
use transit_scholar.Base.{Bool, false, not, ◌&&◌, ◌||◌, ltb, ◌==◌, str_eq}
use transit_scholar.Base.Text.{nonempty, strip}

-- one of `/`, `\`, `:` and the control characters occurs
has_unsafe_char : String → Bool
has_unsafe_char [] = false
has_unsafe_char (c ∷ rest) =
    code c == 47 || code c == 92 || code c == 58 || ltb (code c) 32 || has_unsafe_char rest

unfoldable pub is_safe_workspace_id : String → Bool
unfolding has_unsafe_char
is_safe_workspace_id id =
    nonempty (strip id)
    && str_eq id (strip id)
    && not (str_eq id "." || str_eq id ".." || has_unsafe_char id)
