-- ===== src/Files/Transfer/Stored.antt =====
-- What storeData of code/filehandler.go does for a file that is there.
use blockchain_sybil_attack.Base.{
  ◌≡◌, refl, ap, [], ◌∷◌, some, Text, Bytes, get, put, text_eq, arith,
}
use blockchain_sybil_attack.Node.{P2pFile, State}
use blockchain_sybil_attack.Files.{data_deep_copy, store_data}

pub data_deep_copy-same : (content : Bytes) → data_deep_copy content ≡ content
unfolding data_deep_copy
data_deep_copy-same [] = refl
data_deep_copy-same (b ∷ content) = ap (◌∷◌ b) (data_deep_copy-same content)

unfoldable pub with_chunk : P2pFile → Text → Bytes → P2pFile
with_chunk entry h content = record entry { chunks = put entry.chunks h content }

pub store_data-known :
    (s : State) (name h : Text) (content : Bytes) (entry : P2pFile)
    → get s.files name ≡ some entry
    → store_data s name h content
      ≡ record s { files = put s.files name (with_chunk entry h content) }
unfolding store_data with_chunk
store_data-known s name h content entry here = ground (arith, data_deep_copy-same content)
