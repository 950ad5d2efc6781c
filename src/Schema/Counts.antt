-- ===== src/Schema/Counts.antt =====
-- Byte counts of both directions, added direction by direction.
use over_vpn.Base.{ℤ, pos, ◌+ℤ◌, +ℤ_assoc, +ℤ_comm, +ℤ_zero, ◌≡◌, ◌∙◌, ap, sym}

pub record Bytes : Type 0 where
  pub upload : ℤ
  pub download : ℤ

abbrev pub no_bytes : Bytes
no_bytes = record { upload = pos 0; download = pos 0 }

unfoldable pub add_bytes : Bytes → Bytes → Bytes
add_bytes a b = record { upload = a.upload +ℤ b.upload; download = a.download +ℤ b.download }

pub bytes_eq : (a b : Bytes) → a.upload ≡ b.upload → a.download ≡ b.download → a ≡ b
bytes_eq a b p q = λ i. record { upload = p i; download = q i }

pub add_bytes_assoc : (a b c : Bytes) → add_bytes (add_bytes a b) c ≡ add_bytes a (add_bytes b c)
unfolding add_bytes
add_bytes_assoc a b c =
    bytes_eq _ _ (+ℤ_assoc a.upload b.upload c.upload) (+ℤ_assoc a.download b.download c.download)

pub add_bytes_comm : (a b : Bytes) → add_bytes a b ≡ add_bytes b a
unfolding add_bytes
add_bytes_comm a b = bytes_eq _ _ (+ℤ_comm a.upload b.upload) (+ℤ_comm a.download b.download)

pub add_bytes_zero : (a : Bytes) → add_bytes a no_bytes ≡ a
unfolding add_bytes
add_bytes_zero a = bytes_eq _ _ (+ℤ_zero a.upload) (+ℤ_zero a.download)

pub zero_add_bytes : (a : Bytes) → add_bytes no_bytes a ≡ a
zero_add_bytes a = add_bytes_comm no_bytes a ∙ add_bytes_zero a

pub add_bytes_right_comm :
    (a b c : Bytes) → add_bytes (add_bytes a b) c ≡ add_bytes (add_bytes a c) b
add_bytes_right_comm a b c =
    add_bytes_assoc a b c ∙ ap (add_bytes a) (add_bytes_comm b c) ∙ sym (add_bytes_assoc a c b)
