-- ===== src/TextBasedProtocol/Layers.antt =====
-- What the fields of a text message use of the Layer that holds them: m_Data with m_DataLen bytes,
-- extendLayer, shortenLayer, and a copy to m_Data.
use pcap_plus_plus.Prelude.{ℕ, ◌+◌, ◌<◌, ◌≡◌, Bool, true, Option, some, List, ◌++◌, length}

pub record LayerOps (S : Type 0) : Type 0 where
  pub data_of : S → List ℕ
  pub extend : S → ℕ → ℕ → Option (S × Bool)
  pub shorten : S → ℕ → ℕ → Option (S × Bool)
  pub write : S → ℕ → List ℕ → Option S

-- What they do to a layer in order.
pub record LayerLaws {S : Type 0} (ops : LayerOps S) : Type 1 where
  pub Good : S → Type 0
  pub extends :
      (s : S) (a b : List ℕ) (n : ℕ)
      → Good s
      → ops.data_of s ≡ a ++ b
      → length (a ++ b) + n < 0x1_0000_0000_0000_0000
      → (s' : S) × (gap : List ℕ) × (ops.extend s (length a) n ≡ some (s', true))
        × Good s'
        × (ops.data_of s' ≡ a ++ (gap ++ b))
        × (length gap ≡ n)
  pub shortens :
      (s : S) (a xs b : List ℕ)
      → Good s
      → ops.data_of s ≡ a ++ (xs ++ b)
      → 0 < length xs
      → length (a ++ (xs ++ b)) < 0x1_0000_0000_0000_0000
      → (s' : S) × (ops.shorten s (length a) (length xs) ≡ some (s', true))
        × Good s'
        × (ops.data_of s' ≡ a ++ b)
  pub writes :
      (s : S) (a old b xs : List ℕ)
      → Good s
      → ops.data_of s ≡ a ++ (old ++ b)
      → length xs ≡ length old
      → (s' : S) × (ops.write s (length a) xs ≡ some s')
        × Good s'
        × (ops.data_of s' ≡ a ++ (xs ++ b))
