-- ===== src/AtInterconnect/Passing.antt =====
-- locknsnoop/common/at_interconnect.h: the calls that the interconnect passes on at once.
use Prim.Native.Nat.{bit_or}
use psa.Prelude.{ℕ, ◌*◌, ◌%◌, ◌^◌, Bool, update}
use psa.AtInterconnect.{AtInterconnect, masked, decode_address}

-- The target of a transaction, and the state with its address masked
unfoldable pub pass_down : AtInterconnect → ℕ → AtInterconnect × ℕ
pass_down s t = (
  record s { address = update s.address t (masked (s.address t)) },
  decode_address s (s.address t),
)

-- `b_transport`, where `forward` is that of the targets, with the state `w` of what lies behind them
unfoldable pub b_transport :
    {W : Type 0}
    → (ℕ → AtInterconnect → ℕ → ℕ → W → AtInterconnect × ℕ × W)
    → AtInterconnect
    → ℕ
    → ℕ
    → W
    → AtInterconnect × ℕ × W
unfolding pass_down
b_transport forward s t delay w = let (s', target) = pass_down s t in forward target s' t delay w

-- `transport_dbg` likewise; what is given back is the count.
unfoldable pub transport_dbg :
    {W : Type 0}
    → (ℕ → AtInterconnect → ℕ → W → AtInterconnect × ℕ × W)
    → AtInterconnect
    → ℕ
    → W
    → AtInterconnect × ℕ × W
unfolding pass_down
transport_dbg forward s t w = let (s', target) = pass_down s t in forward target s' t w

-- `reconstruct_address`: `target << 8` is an `unsigned int`.
unfoldable pub reconstruct_address : ℕ → ℕ → ℕ
reconstruct_address address target = bit_or address (target * 2 ^ 8 % 2 ^ 32)

-- The two ends of a region of direct memory
pub record Region : Type 0 where
  pub start_address : ℕ
  pub end_address : ℕ

abbrev pub reconstructed : Region → ℕ → Region
reconstructed r target = record {
  start_address = reconstruct_address r.start_address target;
  end_address = reconstruct_address r.end_address target;
}

-- `get_direct_mem_ptr`, where `forward` is that of the targets
unfoldable pub get_direct_mem_ptr :
    (ℕ → AtInterconnect → ℕ → AtInterconnect × Region × Bool)
    → AtInterconnect
    → ℕ
    → AtInterconnect × Region × Bool
unfolding pass_down reconstruct_address
get_direct_mem_ptr forward s t =
    let (s', target) = pass_down s t in
    let (s'', r, granted) = forward target s' t in (s'', reconstructed r target, granted)

-- `invalidate_direct_mem_ptr`, called by the target `id`: the region that all initiators get
unfoldable pub invalidate_direct_mem_ptr : ℕ → Region → Region
unfolding reconstruct_address
invalidate_direct_mem_ptr id r = reconstructed r id
