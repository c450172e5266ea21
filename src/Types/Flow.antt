-- ===== src/Types/Flow.antt =====
-- `struct FiveTuple` of include/types.h.
use multi_threaded_dpi_engin.Base.{ℕ, Bool, ◌&&◌, ◌==◌, ◌≡◌, true, ◌↔◌, arith}
use multi_threaded_dpi_engin.Base.Eq.{Eq}

pub record FiveTuple : Type 0 where
  pub src_ip : ℕ
  pub dst_ip : ℕ
  pub src_port : ℕ
  pub dst_port : ℕ
  pub protocol : ℕ

-- `FiveTuple::operator==`
unfoldable pub tuple_eq : FiveTuple → FiveTuple → Bool
tuple_eq a b =
    a.src_ip == b.src_ip
    && a.dst_ip == b.dst_ip
    && a.src_port == b.src_port
    && a.dst_port == b.dst_port
    && a.protocol == b.protocol

pub tuple_eq_iff : (a b : FiveTuple) → (tuple_eq a b ≡ true) ↔ (a ≡ b)
unfolding tuple_eq
tuple_eq_iff a b = ground arith

instance abbrev pub flow_eq : Eq FiveTuple
flow_eq = record { beq = tuple_eq; beq_iff = tuple_eq_iff }

-- `FiveTuple::reverse`
unfoldable pub reverse_tuple : FiveTuple → FiveTuple
reverse_tuple t = record {
  src_ip = t.dst_ip;
  dst_ip = t.src_ip;
  src_port = t.dst_port;
  dst_port = t.src_port;
  protocol = t.protocol;
}
