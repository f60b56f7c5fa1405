-- ===== src/Encoding/FilePath.antt =====
-- Go's path/filepath on Unix, as the program uses it.
use Prim.Native.String
use clawdwallet.Base.{Bool, false, not, String, List, [], ◌∷◌, reverse, if◌then◌else◌, str_eq, ◌||◌}
use clawdwallet.Encoding.Text.{split}

-- Whether the path so far, its last element first, has an element that `..` takes back.
can_go_up : List String → Bool
can_go_up [] = false
can_go_up (last ∷ rest) = not (str_eq last "..")

abbrev without_last : List String → List String
without_last [] = []
without_last (last ∷ rest) = rest

-- One element after the others: `.` and empty elements are dropped, `..` takes back the last, and is
-- dropped at the root.
step_up : Bool → List String → List String
unfolding can_go_up
step_up rooted done =
    if can_go_up done then without_last done else if rooted then done else ".." ∷ done

step_clean : Bool → List String → String → List String
unfolding step_up
step_clean rooted done part =
    if str_eq part "" || str_eq part "."
    then done
    else if str_eq part ".."
    then step_up rooted done
    else part ∷ done

clean_parts : Bool → List String → List String → List String
clean_parts rooted done [] = reverse done
clean_parts rooted done (p ∷ ps) = clean_parts rooted (step_clean rooted done p) ps

joined : List String → String
joined [] = ""
joined (p ∷ []) = p
joined (p ∷ q ∷ ps) = String.◌++◌ p (String.◌++◌ "/" (joined (q ∷ ps)))

is_rooted : List String → Bool
is_rooted [] = false
is_rooted (p ∷ ps) = str_eq p ""

-- `filepath.Clean` of a path that is not empty.
unfoldable pub clean : String → String
unfolding split is_rooted clean_parts step_clean joined
clean path =
    let parts = split b'/' path in
    let rooted = is_rooted parts in
    let body = joined (clean_parts rooted [] parts) in
    if rooted then String.◌++◌ "/" body else if str_eq body "" then "." else body

-- `filepath.Join(a, b)` for a `b` that is not empty.
unfoldable pub join : String → String → String
unfolding clean
join a b = if str_eq a "" then clean b else clean (String.◌++◌ a (String.◌++◌ "/" b))
