-- ===== src/Client/Commands/Arrays.antt =====
-- The arrays that the words of a command are read into.
use inter_process_communicat.Base.{◌≢◌, Option, none, some, undefined, arith}
use inter_process_communicat.Protocol.{Bytes}
use inter_process_communicat.Client.Scan.{next_word}
use inter_process_communicat.Client.Scan.Words.{scan_word-fits}
use inter_process_communicat.Client.Commands.{
  after_word, second_word, scan_mode, second_text, scan_texts,
}

second_word-stored : (o : Option (Bytes × Bytes)) → second_word o ≢ undefined
unfolding second_word
second_word-stored none e = absurd (cc)
second_word-stored (some (mode, s)) e = absurd (cc (rw (scan_word-fits 32 31 s (omega arith)) at e))

-- The mode and the operation, however long the words are.
pub scan_mode-stored : (line : Bytes) → scan_mode line ≢ undefined
unfolding scan_mode
scan_mode-stored line e =
    second_word-stored (next_word 31 line) (rw (scan_word-fits 32 31 line (omega arith)) at e)

second_text-stored : (o : Option (Bytes × Bytes)) → second_text o ≢ undefined
unfolding second_text
second_text-stored none e = absurd (cc)
second_text-stored (some (s1, s)) e = absurd (cc (rw (scan_word-fits 64 63 s (omega arith)) at e))

-- The two texts.
pub scan_texts-stored : (line : Bytes) → scan_texts line ≢ undefined
unfolding scan_texts
scan_texts-stored line e =
    let behind = after_word (after_word line) in
    second_text-stored (next_word 63 behind) (rw (scan_word-fits 64 63 behind (omega arith)) at e)
