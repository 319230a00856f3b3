-- ===== src/Lib.antt =====
-- The program is irengine, an information retrieval engine: it reads TREC files into documents, sends
-- their tokens through a chain of filters, keeps an inverted index of what comes out, and answers
-- queries over that index, one engine for each kind of index behind a dispatcher.
--
-- FileReader models scanner/filereader: Token has the tokens of tokenizer.go, Tokenizer has its
-- `BadXMLTokenizer` over the scanner of Go's text/scanner, which Scanner has as the tokenizer sets it
-- up, and Trec has `TrecDocument` and `TrecFileReader` of trec.go, which read the tokens of the tokenizer
-- as a list. The scanner's texts are lists of code points without NUL and byte order mark; the classes of
-- package unicode are the parameter CharClasses. The loops of the tokenizer have fuel, one unit for each
-- step and for each call inside it, since some of them run for ever at the end of a text; where they
-- end, each step takes a character at least, so that a little more than the text is long is enough.
-- `read_to_chan` has fuel, one unit for each document, and one more than there are tokens, of which each
-- document takes one at least. Trec.FromText puts tokenizer and reader together.
--
-- Filters models indexer/filters. Plumbing has the loop of `FilterPlumbing.apply`: a filter
-- is one goroutine between two queues, so that what it sends is a function of the tokens that it reads,
-- and filters in a row are put together with `piped`. Words has basic.go, slashes.go, acronyms.go, specialtext.go, stopwords.go and porter.go;
-- Hyphens, Dates with DateText, and Phrases have the files of these names; Sequence has the chain that
-- filter.go builds. Go's regular expressions are written as functions on texts, each for the expression
-- that its comment names.
--
-- Indexer models indexer. Entry and PostingList have positional_postinglist.go: the two kinds of
-- entries and `positional_pl`; the skip list of the package goskiplist is the parameter SkipMap, and
-- Ordered has the ordered list that meets its laws. Lexicon has `TrieLexicon` and `Term` of lexicon.go
-- over the trie of the package radix-go, which is the parameter TermMap. SingleTerm has what `Insert`
-- stores and the loop of the goroutine `inserter` of single_term.go, which reads what the filters send.
--
-- Constrained models indexer/constrained: PostingListSet has postinglist.go, with the text that `Dump`
-- writes and the lines that `Load` reads. Lexicon has the state of lexicon.go and the worker that lists
-- the swapped sets; Lexicon/Memory has `evict` and `RetrievePLS`, Lexicon/Terms has `Register`,
-- `NewTerm`, `InsertToken` and `RetrievePostingList`, Lexicon/Metadata has `WriteMetadata` and
-- `ReadMetadata`, and Lexicon/Disk has `SaveToDisk` and `LoadFromDisk`. A directory is the map from tags to
-- the texts of their files, and what `filepath.Glob` lists of it is a parameter. Lexicon/History has the
-- steps that a lexicon goes through as a relation, beside the `TrieLexicon` that takes the same tokens.
-- Containers are records at addresses, since the maps and lists of the lexicon point to the same ones. The worker runs beside the index: it has one message in hand, and it
-- is done with it at the latest when the next one is sent. The jump back in `RetrievePLS` recurs on the
-- tags that are left of the random ones; one new tag is enough, since a set of one term is not split.
--
-- QueryEngine models query_engine and scanner/actions/query_engine.go: Response has response.go, Tokens
-- has `getDocTokens` and `ThresholdQueryTerms`, Engine has one message of `ZeroMQEngine.Start`, from the
-- channel behind the filters on, Positional has `FilterPositional` of bm25.go, Ranking has the rankers of bm25.go,
-- cosine_vsm.go and language_model.go, and Dispatcher has one query of
-- `query_engine_action.Run`, which asks the engines one after the other.
--
-- Common has what the parts share: texts as lists of code points, decimal numerals, `strings.Split`,
-- maps as association lists and the tables of Unicode. Tests runs the theorems on concrete data.
--
-- An object that the program changes in place is a record that each operation returns, and a panic or
-- an error is `none` or a constructor of the result. Document ids keep 32 bits, and numbers are read
-- with the widths that `strconv.ParseInt` is given. Floating-point numbers are parameters: the type of
-- scores and of weights, their operations, and the tests on them. So are the clock's year, the random
-- numbers of the document ids, of the phrases and of the tags of sets, the order in which a map of
-- scores is read, `sort.Sort`, the Porter stemmer, and in Engine the rankers and which responses `json.Marshal` takes.
--
-- Not modelled: the document map and the filters of an index on disk, and pruning; the bounds of the
-- channels between goroutines, in which a query that is too long blocks, and `TokenizeToChan`, which fills
-- them; the checks and the several outputs of `Connect`; sockets, JSON, files, flags and logging.
pub mod Common
pub mod FileReader
pub mod Indexer
pub mod Filters
pub mod Constrained
pub mod QueryEngine
pub mod Tests
