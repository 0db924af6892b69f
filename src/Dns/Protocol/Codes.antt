-- ===== src/Dns/Protocol/Codes.antt =====
-- Query types, result codes and header flags as numbers, there and back.
use gis.Base.{ℕ, true, ==_iff, ◌≡◌, refl, arith}
use gis.Dns.Protocol.Types.{
  QueryType, same_type, to_num, from_num, ResultCode, rescode_num, rescode_from_num,
}

-- Every 16-bit number survives the way into a query type and back.
pub to_num-from_num : (num : ℕ) → to_num (from_num num) ≡ num
unfolding to_num from_num
to_num-from_num num = ground arith

-- A query type that `from_num` can give: an unknown one does not hide a known number.
abbrev pub IsCanonical : QueryType → Type 0
IsCanonical (QueryType.unknown x) = from_num x ≡ QueryType.unknown x
IsCanonical _ = Unit

pub from_num-to_num : (q : QueryType) → IsCanonical q → from_num (to_num q) ≡ q
unfolding to_num
from_num-to_num (QueryType.unknown x) h = h
from_num-to_num _ h = unfold from_num in refl

pub rescode_from_num-rescode_num : (r : ResultCode) → rescode_from_num (rescode_num r) ≡ r
unfolding rescode_from_num rescode_num
rescode_from_num-rescode_num ResultCode.no_error = refl
rescode_from_num-rescode_num _ = refl

-- `==` of query types.
pub same_type_sound : (s t : QueryType) → same_type s t ≡ true → s ≡ t
same_type_sound s t h = ground arith

pub same_type_refl : (t : QueryType) → same_type t t ≡ true
same_type_refl (QueryType.unknown x) = (==_iff x x).1 refl
same_type_refl QueryType.a = refl
same_type_refl QueryType.ns = refl
same_type_refl QueryType.cname = refl
same_type_refl QueryType.soa = refl
same_type_refl QueryType.mx = refl
same_type_refl QueryType.txt = refl
same_type_refl QueryType.aaaa = refl
same_type_refl QueryType.srv = refl
same_type_refl QueryType.opt = refl
