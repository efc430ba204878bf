-- ===== src/Value/Props.antt =====
-- Reading and writing the properties of an object, and the laws of both.
use aria_bridge.Prelude.{
  Bool, true, false, Text, text_eq, text_eq_iff, text_eq_refl, if◌then◌else◌, ◌≡◌, refl, ◌≢◌, arith,
}
use aria_bridge.Value.{Value, undefined, Fields, end, field}

-- `o[k]`: `undefined` where the object has no such property.
unfoldable pub get : Text → Fields → Value
get k end = undefined
get k (field j v fs) = if text_eq j k then v else get k fs

-- `k in o`, for an own property.
unfoldable pub has : Text → Fields → Bool
has k end = false
has k (field j v fs) = if text_eq j k then true else has k fs

-- `o[k] = v`: a new property stands last, and an old one keeps its place.
unfoldable pub put : Text → Value → Fields → Fields
put k v end = field k v end
put k v (field j w fs) = if text_eq j k then field j v fs else field j w (put k v fs)

pub get-put :
    (k j : Text) (v : Value) (fs : Fields)
    → get j (put k v fs) ≡ (if text_eq k j then v else get j fs)
unfolding get put
get-put k j v end = refl
get-put k j v (field i w fs) =
    ground (arith, text_eq_iff k j, text_eq_iff i k, text_eq_iff i j, get-put k j v fs)

pub put-put_self : (k : Text) (v w : Value) (fs : Fields) → put k v (put k w fs) ≡ put k v fs
unfolding put
put-put_self k v w end = ground (arith, text_eq_refl k)
put-put_self k v w (field i u fs) = ground (arith, put-put_self k v w fs)

-- Writing back what a property holds changes nothing.
pub put-get_self : (k : Text) (fs : Fields) → has k fs ≡ true → put k (get k fs) fs ≡ fs
unfolding get put has
put-get_self k end h = cc
put-get_self k (field i u fs) h = ground (arith, put-get_self k fs)

pub has_of_get : (k : Text) (fs : Fields) → get k fs ≢ undefined → has k fs ≡ true
unfolding get has
has_of_get k end h = ground arith
has_of_get k (field i u fs) h = ground (arith, has_of_get k fs)
