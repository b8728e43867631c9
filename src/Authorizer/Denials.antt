-- ===== src/Authorizer/Denials.antt =====
-- `mergeDenied` of authorizer.go.
use amsonia_core.Base.{◌≡◌, arith}
use amsonia_core.Authorizer.{DeniedReason, merge_denied}

pub merge_denied-none : (a : DeniedReason) → merge_denied a DeniedReason.denied_none ≡ a
unfolding merge_denied
merge_denied-none a = ground arith

pub merge_denied_comm : (a b : DeniedReason) → merge_denied a b ≡ merge_denied b a
unfolding merge_denied
merge_denied_comm a b = ground arith

pub merge_denied_assoc :
    (a b c : DeniedReason) → merge_denied (merge_denied a b) c ≡ merge_denied a (merge_denied b c)
unfolding merge_denied
merge_denied_assoc a b c = ground arith

pub merge_denied_again : (a b : DeniedReason) → merge_denied (merge_denied a b) b ≡ merge_denied a b
unfolding merge_denied
merge_denied_again a b = ground arith
