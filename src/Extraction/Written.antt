-- ===== src/Extraction/Written.antt =====
-- internal/extraction/parser.go: the delimiters of a path that is written from tokens.
