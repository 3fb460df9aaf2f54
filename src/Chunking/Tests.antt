-- ===== src/Chunking/Tests.antt =====
-- discord/chunking.py: texts that are cut at a paragraph, in a word and in white space.
use discord_os.Prelude.{◌≡◌, refl, List, [], ◌∷◌, arith, All}
use discord_os.Text.{Text, txt, strip}
use discord_os.Chunking.{ok, chunk_message}
use discord_os.Chunking.Bounds.{IsChunk}
use discord_os.Chunking.Kept.{visible, join, chunk_message-Cuts}

abbrev content : Text
content = txt "one two three  abcdefghijkl"

cut_up :
    chunk_message 8 content ≡ ok (txt "one two" ∷ txt "three" ∷ txt "abcdefgh" ∷ txt "ijkl" ∷ [])
unfolding chunk_message strip
cut_up = refl

chunk_message-Cuts_example :
    (chunks : List Text) × (chunk_message 8 content ≡ ok chunks)
    × All (IsChunk 8) chunks
    × (visible (join chunks) ≡ visible content)
chunk_message-Cuts_example = chunk_message-Cuts 8 content (omega arith) (omega arith)
